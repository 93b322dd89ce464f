-- ===== src/Dir/Contents/Inserted.antt =====
-- dir.c: the entries of a directory with a new one, and the numbers that names have then.
use klee_testfs.Common.{
  ℕ, ◌+◌, ◌<◌, ◌≡◌, refl, sym, ap, ◌∙◌, Bool, true, false, not, ◌||◌, ◌==◌, ◌⊎◌, inl, inr, List, [],
  ◌∷◌, ℤ, pos, is_neg, length, if◌then◌else◌, Bool-cases, leb, leb→le, arith,
}
use Prim.Native.Nat.{max}
use klee_testfs.Bytes.{Bytes}
use klee_testfs.Text.{same_string}
use klee_testfs.Inode.Data.{max_int}
use klee_testfs.Dir.Contents.{Item, IsName, AllItems, has}
use klee_testfs.Dir.Contents.Lookup.{number_of}
use klee_testfs.Dir.Contents.Spot.{taken, stays, inserted}

pub same_string-eq : (s t : Bytes) → same_string s t ≡ true → s ≡ t
unfolding same_string
same_string-eq [] [] h = refl
same_string-eq [] (c ∷ t) h = cc
same_string-eq (b ∷ s) [] h = cc
same_string-eq (b ∷ s) (c ∷ t) h = ground (arith, same_string-eq s t)

-- Two tests that are not both true may be asked in either order.
pub swapped :
    {A : Type 0} (c s : Bool) (x y z : A)
    → (s ≡ true → c ≡ false)
    → (if c then x else if s then y else z) ≡ (if s then y else if c then x else z)
swapped true true x y z h = cc (h refl)
swapped true false x y z h = refl
swapped false s x y z h = refl

pub absent_here :
    (name : Bytes) (e : Item) (es : List Item) → taken name (e ∷ es) ≡ false → has e name ≡ false
unfolding taken
absent_here name e es h = by_has (has e name) h
  where
    by_has : (b : Bool) → (if b then true else taken name es) ≡ false → b ≡ false
    by_has true h = h
    by_has false h = refl

pub absent_later :
    (name : Bytes) (e : Item) (es : List Item) → taken name (e ∷ es) ≡ false → taken name es ≡ false
unfolding taken
absent_later name e es h = by_has (has e name) h
  where
    by_has : (b : Bool) → (if b then true else taken name es) ≡ false → taken name es ≡ false
    by_has true h = cc h
    by_has false h = h

pub free-has : (name other : Bytes) (e : Item) → stays name e ≡ false → has e other ≡ false
free-has name other e h = by_sign (is_neg e.nr) h
  where
    by_sign :
        (b : Bool)
        → (not b || not (length e.name + 1 == length name + 1)) ≡ false
        → (if b then false else same_string e.name other) ≡ false
    by_sign true h = refl
    by_sign false h = cc h

-- A name that is in use is found, and no other name is affected by a new entry.
pub number_of-inserted :
    (name other : Bytes) (nr : ℕ) (ret : ℤ) (es : List Item)
    → taken name es ≡ false
    → number_of other ret (inserted name (pos nr) es)
      ≡ (if same_string name other then pos nr else number_of other ret es)
unfolding number_of inserted
number_of-inserted name other nr ret [] absent = refl
number_of-inserted name other nr ret (e ∷ es) absent =
    by_stay (Bool-cases (stays name e))
      (number_of-inserted name other nr ret es (absent_later name e es absent))
  where
    new_item : Item
    new_item = record { nr = pos nr; name = name }

    apart : same_string name other ≡ true → has e other ≡ false
    apart same = ap (has e) (sym (same_string-eq name other same)) ∙ absent_here name e es absent

    by_stay :
        (stays name e ≡ true) ⊎ (stays name e ≡ false)
        → number_of other ret (inserted name (pos nr) es)
          ≡ (if same_string name other then pos nr else number_of other ret es)
        → number_of other ret
            (if stays name e then e ∷ inserted name (pos nr) es else new_item ∷ es)
          ≡ (if same_string name other
              then pos nr
              else if has e other
              then e.nr
              else number_of other ret es)
    by_stay (inl stay) later =
        ap (λ b. number_of other ret (if b then e ∷ inserted name (pos nr) es else new_item ∷ es))
          stay
        ∙ ap (λ z. if has e other then e.nr else z) later
        ∙ swapped (has e other) (same_string name other) e.nr (pos nr) (number_of other ret es)
            apart
    by_stay (inr free) later =
        ap (λ b. number_of other ret (if b then e ∷ inserted name (pos nr) es else new_item ∷ es))
          free
        ∙ ap
            (λ b.
              if same_string name other then pos nr else if b then e.nr else number_of other ret es)
            (sym (free-has name other e free))

pub inserted-AllItems :
    (name : Bytes) (nr : ℕ) (es : List Item)
    → IsName name
    → nr < 2147483648
    → AllItems es
    → AllItems (inserted name (pos nr) es)
unfolding inserted
inserted-AllItems name nr [] named small items = ((small, named), tt)
inserted-AllItems name nr (e ∷ es) named small items =
    by_stay (stays name e) (inserted-AllItems name nr es named small items.1)
  where
    by_stay :
        (b : Bool)
        → AllItems (inserted name (pos nr) es)
        → AllItems
            (if b then e ∷ inserted name (pos nr) es else record { nr = pos nr; name = name } ∷ es)
    by_stay true later = (items.0, later)
    by_stay false later = ((small, named), items.1)

pub larger : (a b c : ℕ) → max a b ≡ c → max_int (pos a) (pos b) ≡ pos c
larger a b c h = by_order (Bool-cases (leb b a))
  where
    not_leb : leb b a ≡ false → a < b
    not_leb gt = ground arith

    by_order : (leb b a ≡ true) ⊎ (leb b a ≡ false) → (if leb b a then pos a else pos b) ≡ pos c
    by_order (inl le) =
        ap (λ t. if t then pos a else pos b) le ∙ ap pos (omega (arith, h, leb→le b a le))
    by_order (inr gt) =
        ap (λ t. if t then pos a else pos b) gt ∙ ap pos (omega (arith, h, not_leb gt))
