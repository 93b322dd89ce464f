-- ===== src/Dir/Contents/Resolve.antt =====
-- dir.c: testfs_dir_name_to_inode_nr of a name without a slash.
use klee_testfs.Common.{
  ℕ, suc, ◌+◌, ◌<◌, ◌≡◌, ◌≢◌, refl, ap, ◌∙◌, Bool, true, false, Option, none, some, List, [], ◌∷◌,
  minus, length, ◌==◌, ==_ne, ==_refl, ==_iff, if◌then◌else◌, arith,
}
use klee_testfs.Bytes.{Bytes}
use klee_testfs.Machine.{Machine, ok, Inode, Ptr, M, pure, enoent}
use klee_testfs.Machine.Run.{then_ok, assert_then}
use klee_testfs.Text.{same_string, index_of, ends_with}
use klee_testfs.Inode.Cache.Laws.{fetch-ok}
use klee_testfs.Dir.Path.{slash, dir_name_to_inode_nr, dir_name_to_inode_nr_rec}
use klee_testfs.Dir.Contents.{Item}
use klee_testfs.Dir.Contents.Lookup.{IsDirectory, number_of, search_entry-items}

-- Bytes without a slash.
abbrev pub IsPlain : Bytes → Type 0
IsPlain [] = Unit {0}
IsPlain (b ∷ bs) = (b ≢ 47) × IsPlain bs

index_of-IsPlain : (s : Bytes) → IsPlain s → index_of b'/' s ≡ none
unfolding index_of
index_of-IsPlain [] h = refl
index_of-IsPlain (b ∷ s) (other, rest) =
    ap (λ t. if t then some 0 else elim (index_of b'/' s) [ none ↦ none | some i ↦ some (i + 1) ])
      (==_ne b 47 other)
    ∙ ap (λ o. elim o as (λ _. Option ℕ) [ none ↦ none | some i ↦ some (i + 1) ])
        (index_of-IsPlain s rest)

ends_with-IsPlain : (s : Bytes) → IsPlain s → ends_with b'/' s ≡ false
unfolding ends_with
ends_with-IsPlain [] h = refl
ends_with-IsPlain (b ∷ []) h = ==_ne b 47 h.0
ends_with-IsPlain (b ∷ c ∷ s) h = ends_with-IsPlain (c ∷ s) h.1

same_string-slash : (s : Bytes) → IsPlain s → same_string s slash ≡ false
unfolding same_string
same_string-slash [] h = refl
same_string-slash (b ∷ s) h = ap (λ t. if t then same_string s [] else false) (==_ne b 47 h.0)

taken_first :
    {A : Type 0} {b : Bool}
    → b ≡ true
    → (x : A) (c : M A) (m : Machine) → (if b then pure x else c) m ≡ ok x m
taken_first h x c m = ap (λ t. (if t then pure x else c) m) h

module _ {m : Machine} {p : Ptr} {i : Inode} {k : ℕ} {es : List Item} {tail : Bytes}
    (d : IsDirectory m p i k es tail) (name : Bytes) (plain : IsPlain name)
    (named : 0 < length name) where
  nonempty : (length name == 0) ≡ false
  nonempty = ==_ne (length name) 0 (λ e. omega arith)

  resolve_rec :
      (fuel : ℕ)
      → dir_name_to_inode_nr_rec (suc fuel) p name m ≡ ok (number_of name (minus enoent) es, p) m
  unfolding dir_name_to_inode_nr_rec
  resolve_rec fuel =
      then_ok _ (then_ok _ (fetch-ok m p d.holds) ∙ assert_then _ m ((==_iff _ _).1 d.is_dir))
      ∙ rw (same_string-slash name plain, index_of-IsPlain name plain, nonempty)
          (then_ok _ (search_entry-items d name))

  -- A name in the current directory is resolved by its entries: testfs_dir_name_to_inode_nr of a name
  -- that is not empty and has no slash, in a directory of one block in which no allocation fails,
  -- returns the number of the first entry in use under that name, or -ENOENT where there is none,
  -- and leaves the directory where it was and the state as it was.
  pub dir_name_to_inode_nr-items :
      dir_name_to_inode_nr p name m ≡ ok (number_of name (minus enoent) es, p) m
  unfolding dir_name_to_inode_nr
  dir_name_to_inode_nr-items =
      then_ok _ (fetch-ok m p d.holds)
      ∙ rw (nonempty, ends_with-IsPlain name plain)
          (then_ok _ (ap (λ f. dir_name_to_inode_nr_rec f p name m) one ∙ resolve_rec (length name))
            ∙ then_ok _ (fetch-ok m p d.holds)
            ∙ taken_first (==_refl i.i_nr) _ _ m)
    where
      one : length name + 1 ≡ suc (length name)
      one = omega arith
