-- ===== src/Dir/Contents/Removed/Numbers.antt =====
-- dir.c: the numbers that names have in a directory with one entry emptied.
use klee_testfs.Common.{
  ℕ, ◌+◌, ◌≡◌, refl, sym, ap, ◌∙◌, Bool, true, false, ◌⊎◌, inl, inr, List, none, some, [], ◌∷◌, ℤ,
  pos, negsuc, is_neg, if◌then◌else◌, Bool-cases,
}
use klee_testfs.Bytes.{Bytes}
use klee_testfs.Text.{same_string}
use klee_testfs.Dir.Contents.{Item, item_size, has}
use klee_testfs.Dir.Contents.Lookup.{number_of}
use klee_testfs.Dir.Contents.Inserted.{same_string-eq, absent_here, absent_later, swapped}
use klee_testfs.Dir.Contents.Spot.{taken}
use klee_testfs.Dir.Contents.Removed.{freed, removed, first_at, has-eq}

pub number_of-absent :
    (name : Bytes) (ret : ℤ) (es : List Item) → taken name es ≡ false → number_of name ret es ≡ ret
unfolding number_of
number_of-absent name ret [] absent = refl
number_of-absent name ret (e ∷ es) absent =
    ap (λ b. if b then e.nr else number_of name ret es) (absent_here name e es absent)
    ∙ number_of-absent name ret es (absent_later name e es absent)

-- What an entry that had the name gives for another one.
other-has :
    (name other : Bytes) (e : Item)
    → has e name ≡ true
    → same_string name other ≡ false
    → has e other ≡ false
other-has name other e h apart = by_sign (is_neg e.nr)
  where
    by_sign : (b : Bool) → (if b then false else same_string e.name other) ≡ false
    by_sign true = refl
    by_sign false = ap (λ s. same_string s other) (has-eq e name h) ∙ apart

-- A name that only one entry had is not found any more, and no other name is affected.
pub number_of-removed :
    (name other : Bytes) (ret : ℤ) (es : List Item)
    → taken name (removed name es) ≡ false
    → number_of other ret (removed name es)
      ≡ (if same_string name other then ret else number_of other ret es)
unfolding removed number_of
number_of-removed name other ret [] once = either (same_string name other)
  where
    either : (b : Bool) → ret ≡ (if b then ret else ret)
    either true = refl
    either false = refl
number_of-removed name other ret (e ∷ es) once =
    by_has (Bool-cases (has e name)) (Bool-cases (same_string name other))
      (λ later. number_of-removed name other ret es later)
  where
    now :
        (b : Bool)
        → has e name ≡ b
        → removed name (e ∷ es) ≡ (if b then freed e ∷ es else e ∷ removed name es)
    now b h = ap (λ b. if b then freed e ∷ es else e ∷ removed name es) h

    absent :
        (b : Bool)
        → has e name ≡ b
        → taken name (if b then freed e ∷ es else e ∷ removed name es) ≡ false
    absent b h = ap (taken name) (sym (now b h)) ∙ once

    by_same :
        has e name ≡ true
        → (same_string name other ≡ true) ⊎ (same_string name other ≡ false)
        → number_of other ret es ≡ (
            if same_string name other
            then ret
            else if has e other
            then e.nr
            else number_of other ret es)
    by_same h (inl same) =
        ap (λ s. number_of s ret es) (sym (same_string-eq name other same))
        ∙ number_of-absent name ret es (absent_later name (freed e) es (absent true h))
        ∙ ap (λ b. if b then ret else if has e other then e.nr else number_of other ret es)
            (sym same)
    by_same h (inr apart) =
        ap (λ b. if b then e.nr else number_of other ret es) (sym (other-has name other e h apart))
        ∙ ap (λ b. if b then ret else if has e other then e.nr else number_of other ret es)
            (sym apart)

    unaffected : has e name ≡ false → same_string name other ≡ true → has e other ≡ false
    unaffected h same = ap (has e) (sym (same_string-eq name other same)) ∙ h

    by_has :
        (has e name ≡ true) ⊎ (has e name ≡ false)
        → (same_string name other ≡ true) ⊎ (same_string name other ≡ false)
        → (taken name (removed name es) ≡ false
            → number_of other ret (removed name es)
              ≡ (if same_string name other then ret else number_of other ret es))
        → number_of other ret (removed name (e ∷ es)) ≡ (
            if same_string name other
            then ret
            else if has e other
            then e.nr
            else number_of other ret es)
    by_has (inl h) same on = ap (number_of other ret) (now true h) ∙ by_same h same
    by_has (inr h) same on =
        ap (number_of other ret) (now false h)
        ∙ ap (λ z. if has e other then e.nr else z)
            (on (absent_later name e (removed name es) (absent false h)))
        ∙ swapped (has e other) (same_string name other) e.nr ret (number_of other ret es)
            (unaffected h)

-- A name that has a number is in use.
pub number_of-taken :
    (name : Bytes) (nr ret : ℕ) (es : List Item)
    → number_of name (negsuc ret) es ≡ pos nr
    → taken name es ≡ true
number_of-taken name nr ret es h = by_taken (Bool-cases (taken name es))
  where
    by_taken : (taken name es ≡ true) ⊎ (taken name es ≡ false) → taken name es ≡ true
    by_taken (inl used) = used
    by_taken (inr absent) = cc (number_of-absent name (negsuc ret) es absent, h)

pub first_at-absent :
    (name : Bytes) (offset : ℕ) (es : List Item)
    → taken name es ≡ false
    → first_at name offset es ≡ none
unfolding first_at
first_at-absent name offset [] absent = refl
first_at-absent name offset (e ∷ es) absent =
    ap (λ b. if b then some (offset, e) else first_at name (offset + item_size e) es)
      (absent_here name e es absent)
    ∙ first_at-absent name (offset + item_size e) es (absent_later name e es absent)
