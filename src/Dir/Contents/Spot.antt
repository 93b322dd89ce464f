-- ===== src/Dir/Contents/Spot.antt =====
-- dir.c: where testfs_add_dirent puts an entry, and the entries of the directory then.
use klee_testfs.Common.{
  ◌&&◌, ℕ, zero, suc, ◌+◌, ◌≤◌, ◌≡◌, refl, sym, ap, ◌∙◌, Bool, true, false, not, ◌||◌, ◌==◌, ◌⊎◌,
  inl, inr, List, [], ◌∷◌, ◌++◌, ℤ, is_neg, length, length-append, length-take, take, drop,
  if◌then◌else◌, Bool-cases, arith,
}
use Prim.Native.Nat.{max}
use mathlib.Core.List.{append_assoc, append-nil}
use klee_testfs.Bytes.{Bytes, IsBytes}
use klee_testfs.Bytes.Laws.{IsBytes-drop}
use klee_testfs.Dir.Change.{exists, reuse, append}
use klee_testfs.Dir.Contents.{Item, encode_item, encode_items, item_size, length-encode_item, has}
use klee_testfs.Dir.Contents.Lookup.{slot_of}

-- Whether a name is in use.
unfoldable pub taken : Bytes → List Item → Bool
taken name [] = false
taken name (e ∷ es) = if has e name then true else taken name es

-- An entry stays where it is, or is free and as long as one of that name.
abbrev pub stays : Bytes → Item → Bool
stays name e = not (is_neg e.nr) || not (length e.name + 1 == length name + 1)

-- No entry is free and as long as one of that name.
unfoldable pub full : Bytes → List Item → Bool
full name [] = true
full name (e ∷ es) = stays name e && full name es

-- The entries with a new one in the first place that is free and as long, or behind all others.
unfoldable pub inserted : Bytes → ℤ → List Item → List Item
inserted name nr [] = record { nr = nr; name = name } ∷ []
inserted name nr (e ∷ es) =
    if stays name e then e ∷ inserted name nr es else record { nr = nr; name = name } ∷ es

module _ (name : Bytes) (nr : ℤ) where
  abbrev new_item : Item
  new_item = record { nr = nr; name = name }

  -- The bytes of the directory, from `offset` on, split at that place.
  pub record Spot (offset : ℕ) (es : List Item) (tail : Bytes) : Type 0 where
    pub before : Bytes
    pub old : Bytes
    pub after : Bytes
    pub tail_after : Bytes
    pub split : encode_items es ++ tail ≡ before ++ (old ++ after)
    pub joined :
        encode_items (inserted name nr es) ++ tail_after ≡ before ++ (encode_item new_item ++ after)
    pub same : length old ≡ item_size new_item
    pub starts : length before ≤ length (encode_items es)
    pub ends :
        max (length (encode_items es)) (length before + item_size new_item)
        ≡ length (encode_items (inserted name nr es))
    pub bytes : IsBytes tail_after
    pub slot :
        (slot_of name offset es ≡ reuse (offset + length before))
        ⊎ ((slot_of name offset es ≡ append (offset + length before))
            × (length before ≡ length (encode_items es)))

  take-drop : (n : ℕ) (xs : Bytes) → xs ≡ take n xs ++ drop n xs
  take-drop zero xs = refl
  take-drop (suc n) [] = refl
  take-drop (suc n) (x ∷ xs) = ap (λ r. x ∷ r) (take-drop n xs)

  spot-end :
      (offset : ℕ) (tail : Bytes)
      → IsBytes tail
      → item_size new_item ≤ length tail
      → Spot offset [] tail
  unfolding slot_of inserted
  spot-end offset tail bytes room = record {
    before = [];
    old = take (item_size new_item) tail;
    after = drop (item_size new_item) tail;
    tail_after = drop (item_size new_item) tail;
    split = take-drop (item_size new_item) tail;
    joined = ap (λ bs. bs ++ drop (item_size new_item) tail) (append-nil (encode_item new_item));
    same = omega (arith, length-take (item_size new_item) tail, room);
    starts = omega arith;
    ends = omega (arith, length-encode_item new_item, length-append (encode_item new_item) []);
    bytes = IsBytes-drop (item_size new_item) tail bytes;
    slot = inr (ap append no_more, refl);
  }
    where
      no_more : offset ≡ offset + 0
      no_more = omega arith

  module _ (e : Item) (rest : List Item) (offset : ℕ) (tail : Bytes)
      (other : has e name ≡ false) where
    -- A free entry of that length is taken.
    spot_here : stays name e ≡ false → IsBytes tail → Spot offset (e ∷ rest) tail
    unfolding slot_of inserted
    spot_here free bytes = record {
      before = [];
      old = encode_item e;
      after = encode_items rest ++ tail;
      tail_after = tail;
      split = append_assoc (encode_item e) (encode_items rest) tail;
      joined =
          ap (λ es. encode_items es ++ tail) now
          ∙ append_assoc (encode_item new_item) (encode_items rest) tail;
      same = omega (arith, length-encode_item e, as_long);
      starts = omega arith;
      ends = omega (
        arith,
        ap (λ es. length (encode_items es)) now,
        as_long,
        length-encode_item e,
        length-encode_item new_item,
        length-append (encode_item e) (encode_items rest),
        length-append (encode_item new_item) (encode_items rest),
      );
      bytes = bytes;
      slot = inl (
          ap
            (λ b.
              if b
              then exists
              else if stays name e
              then slot_of name (offset + item_size e) rest
              else reuse offset)
            other
          ∙ ap (λ b. if b then slot_of name (offset + item_size e) rest else reuse offset) free
          ∙ ap reuse no_more);
    }
      where
        as_long : length e.name ≡ length name
        as_long = ground arith

        now : inserted name nr (e ∷ rest) ≡ new_item ∷ rest
        now = ap (λ b. if b then e ∷ inserted name nr rest else new_item ∷ rest) free

        no_more : offset ≡ offset + 0
        no_more = omega arith

    -- The place is behind this entry.
    spot_later :
        stays name e ≡ true → Spot (offset + item_size e) rest tail → Spot offset (e ∷ rest) tail
    unfolding slot_of inserted
    spot_later stay s = record {
      before = encode_item e ++ s.before;
      old = s.old;
      after = s.after;
      tail_after = s.tail_after;
      split =
          append_assoc (encode_item e) (encode_items rest) tail
          ∙ ap (λ bs. encode_item e ++ bs) s.split
          ∙ sym (append_assoc (encode_item e) s.before (s.old ++ s.after));
      joined =
          ap (λ es. encode_items es ++ s.tail_after) now
          ∙ append_assoc (encode_item e) (encode_items (inserted name nr rest)) s.tail_after
          ∙ ap (λ bs. encode_item e ++ bs) s.joined
          ∙ sym (append_assoc (encode_item e) s.before (encode_item new_item ++ s.after));
      same = s.same;
      starts = omega (arith, s.starts, longer, sizes);
      ends = omega (
        arith,
        s.ends,
        longer,
        sizes,
        ap (λ es. length (encode_items es)) now,
        length-append (encode_item e) (encode_items (inserted name nr rest)),
      );
      bytes = s.bytes;
      slot = by_slot s.slot;
    }
      where
        now : inserted name nr (e ∷ rest) ≡ e ∷ inserted name nr rest
        now = ap (λ b. if b then e ∷ inserted name nr rest else new_item ∷ rest) stay

        longer : length (encode_item e ++ s.before) ≡ length (encode_item e) + length s.before
        longer = length-append (encode_item e) s.before

        sizes :
            length (encode_items (e ∷ rest)) ≡ length (encode_item e) + length (encode_items rest)
        sizes = length-append (encode_item e) (encode_items rest)

        on : slot_of name offset (e ∷ rest) ≡ slot_of name (offset + item_size e) rest
        on =
            ap
              (λ b.
                if b
                then exists
                else if stays name e
                then slot_of name (offset + item_size e) rest
                else reuse offset)
              other
            ∙ ap (λ b. if b then slot_of name (offset + item_size e) rest else reuse offset) stay

        moved : offset + item_size e + length s.before ≡ offset + length (encode_item e ++ s.before)
        moved = omega (arith, longer, length-encode_item e)

        by_slot :
            (slot_of name (offset + item_size e) rest
                ≡ reuse (offset + item_size e + length s.before))
              ⊎ ((slot_of name (offset + item_size e) rest
                    ≡ append (offset + item_size e + length s.before))
                  × (length s.before ≡ length (encode_items rest)))
            → (slot_of name offset (e ∷ rest) ≡ reuse (offset + length (encode_item e ++ s.before)))
              ⊎ ((slot_of name offset (e ∷ rest)
                    ≡ append (offset + length (encode_item e ++ s.before)))
                  × (length (encode_item e ++ s.before) ≡ length (encode_items (e ∷ rest))))
        by_slot (inl h) = inl (on ∙ h ∙ ap reuse moved)
        by_slot (inr (h, last)) = inr (on ∙ h ∙ ap append moved, omega (arith, longer, sizes, last))

  pub spot_from :
      (es : List Item) (offset : ℕ) (tail : Bytes)
      → taken name es ≡ false
      → IsBytes tail
      → length (encode_items es) + item_size new_item ≤ length (encode_items es) + length tail
      → Spot offset es tail
  unfolding taken
  spot_from [] offset tail absent bytes room = spot-end offset tail bytes (omega (arith, room))
  spot_from (e ∷ es) offset tail absent bytes room = by_stay (Bool-cases (stays name e)) (
      spot_from es (offset + item_size e) tail (absent_later (has e name) absent) bytes
        (omega (arith, room)))
    where
      absent_here : (b : Bool) → (if b then true else taken name es) ≡ false → b ≡ false
      absent_here true h = h
      absent_here false h = refl

      absent_later :
          (b : Bool) → (if b then true else taken name es) ≡ false → taken name es ≡ false
      absent_later true h = cc
      absent_later false h = h

      by_stay :
          (stays name e ≡ true) ⊎ (stays name e ≡ false)
          → Spot (offset + item_size e) es tail
          → Spot offset (e ∷ es) tail
      by_stay (inl stay) s = spot_later e es offset tail (absent_here (has e name) absent) stay s
      by_stay (inr free) s = spot_here e es offset tail (absent_here (has e name) absent) free bytes
