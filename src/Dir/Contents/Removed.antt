-- ===== src/Dir/Contents/Removed.antt =====
-- dir.c: the entries of a directory with one emptied, and where it stands.
pub mod Numbers
use klee_testfs.Common.{
  ℕ, ◌+◌, ◌≤◌, ◌≡◌, refl, sym, ap, ◌∙◌, Bool, true, false, ◌⊎◌, inl, inr, List, Option, none, some,
  [], ◌∷◌, ◌++◌, ℤ, pos, negsuc, is_neg, length, length-append, if◌then◌else◌, Bool-cases, arith,
}
use mathlib.Core.List.{append_assoc}
use klee_testfs.Bytes.{Bytes}
use klee_testfs.Text.{same_string}
use klee_testfs.Dir.Contents.{
  Item, encode_item, encode_items, IsName, AllItems, item_size, length-encode_item, has,
}
use klee_testfs.Dir.Contents.Lookup.{number_of}
use klee_testfs.Dir.Contents.Inserted.{same_string-eq, absent_here, absent_later, swapped}
use klee_testfs.Dir.Contents.Spot.{taken}

-- A free entry keeps its name.
abbrev pub freed : Item → Item
freed e = record { nr = negsuc 0; name = e.name }

-- The first entry in use under that name is free.
unfoldable pub removed : Bytes → List Item → List Item
removed name [] = []
removed name (e ∷ es) = if has e name then freed e ∷ es else e ∷ removed name es

-- That entry and where it begins.
unfoldable pub first_at : Bytes → ℕ → List Item → Option (ℕ × Item)
first_at name offset [] = none
first_at name offset (e ∷ es) =
    let rest = first_at name (offset + item_size e) es in
    if has e name then some (offset, e) else rest

-- The bytes of the directory, split at that entry.
pub record Located (name : Bytes) (es : List Item) (tail : Bytes) : Type 0 where
  pub before : Bytes
  pub entry : Item
  pub after : Bytes
  pub split : encode_items es ++ tail ≡ before ++ (encode_item entry ++ after)
  pub joined :
      encode_items (removed name es) ++ tail ≡ before ++ (encode_item (freed entry) ++ after)
  pub as_long : length (encode_items (removed name es)) ≡ length (encode_items es)
  pub inside : length before + item_size entry ≤ length (encode_items es)
  pub named : IsName entry.name
  pub found : has entry name ≡ true
  pub first : (offset : ℕ) → first_at name offset es ≡ some (offset + length before, entry)
  pub number : entry.nr ≡ number_of name (negsuc 1) es

pub has-eq : (e : Item) (name : Bytes) → has e name ≡ true → e.name ≡ name
has-eq e name h = by_sign (is_neg e.nr) h
  where
    by_sign : (b : Bool) → (if b then false else same_string e.name name) ≡ true → e.name ≡ name
    by_sign true h = cc h
    by_sign false h = same_string-eq e.name name h

module _ (name : Bytes) (tail : Bytes) where
  found_here :
      (e : Item) (es : List Item)
      → has e name ≡ true
      → AllItems (e ∷ es)
      → Located name (e ∷ es) tail
  unfolding removed number_of first_at
  found_here e es h items = record {
    before = [];
    entry = e;
    after = encode_items es ++ tail;
    split = append_assoc (encode_item e) (encode_items es) tail;
    joined =
        ap (λ b. encode_items (if b then freed e ∷ es else e ∷ removed name es) ++ tail) h
        ∙ append_assoc (encode_item (freed e)) (encode_items es) tail;
    as_long =
        ap (λ b. length (encode_items (if b then freed e ∷ es else e ∷ removed name es))) h
        ∙ omega (
          arith,
          length-append (encode_item e) (encode_items es),
          length-append (encode_item (freed e)) (encode_items es),
          length-encode_item e,
          length-encode_item (freed e),
        );
    inside = omega (arith, length-append (encode_item e) (encode_items es), length-encode_item e);
    named = items.0.1;
    found = h;
    first = λ offset.
        ap (λ b. if b then some (offset, e) else first_at name (offset + item_size e) es) h
        ∙ ap (λ o. some (o, e)) (omega arith);
    number = ap (λ b. if b then e.nr else number_of name (negsuc 1) es) (sym h);
  }

  found_later :
      (e : Item) (es : List Item)
      → has e name ≡ false
      → Located name es tail
      → Located name (e ∷ es) tail
  unfolding removed number_of first_at
  found_later e es h f = record {
    before = encode_item e ++ f.before;
    entry = f.entry;
    after = f.after;
    split =
        append_assoc (encode_item e) (encode_items es) tail
        ∙ ap (λ bs. encode_item e ++ bs) f.split
        ∙ sym (append_assoc (encode_item e) f.before (encode_item f.entry ++ f.after));
    joined =
        ap (λ b. encode_items (if b then freed e ∷ es else e ∷ removed name es) ++ tail) h
        ∙ append_assoc (encode_item e) (encode_items (removed name es)) tail
        ∙ ap (λ bs. encode_item e ++ bs) f.joined
        ∙ sym (append_assoc (encode_item e) f.before (encode_item (freed f.entry) ++ f.after));
    as_long =
        ap (λ b. length (encode_items (if b then freed e ∷ es else e ∷ removed name es))) h
        ∙ omega (
          arith,
          f.as_long,
          length-append (encode_item e) (encode_items es),
          length-append (encode_item e) (encode_items (removed name es)),
        );
    inside = omega (
      arith,
      f.inside,
      length-append (encode_item e) f.before,
      length-append (encode_item e) (encode_items es),
    );
    named = f.named;
    found = f.found;
    first = λ offset.
        ap (λ b. if b then some (offset, e) else first_at name (offset + item_size e) es) h
        ∙ f.first (offset + item_size e)
        ∙ ap (λ o. some (o, f.entry))
            (omega (arith, length-append (encode_item e) f.before, length-encode_item e));
    number = f.number ∙ ap (λ b. if b then e.nr else number_of name (negsuc 1) es) (sym h);
  }

  -- A name in use has such an entry.
  pub found_in : (es : List Item) → taken name es ≡ true → AllItems es → Located name es tail
  unfolding taken
  found_in [] t items = cc t
  found_in (e ∷ es) t items = by_has (Bool-cases (has e name)) (λ later. found_in es later items.1)
    where
      later :
          (b : Bool) → (if b then true else taken name es) ≡ true → b ≡ false → taken name es ≡ true
      later true t h = cc h
      later false t h = t

      by_has :
          (has e name ≡ true) ⊎ (has e name ≡ false)
          → (taken name es ≡ true → Located name es tail)
          → Located name (e ∷ es) tail
      by_has (inl h) on = found_here e es h items
      by_has (inr h) on = found_later e es h (on (later (has e name) t h))

pub removed-AllItems : (name : Bytes) (es : List Item) → AllItems es → AllItems (removed name es)
unfolding removed
removed-AllItems name [] items = tt
removed-AllItems name (e ∷ es) items = by_has (has e name) (removed-AllItems name es items.1)
  where
    by_has :
        (b : Bool)
        → AllItems (removed name es)
        → AllItems (if b then freed e ∷ es else e ∷ removed name es)
    by_has true later = ((omega arith, items.0.1), items.1)
    by_has false later = (items.0, later)
