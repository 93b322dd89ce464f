-- ===== src/Inode/Cache/Laws.antt =====
-- Inodes on disk and in memory: the encoding, and references taken and given back.
use klee_testfs.Common.{
  ℕ, zero, suc, ◌+◌, ◌-◌, ◌^◌, ◌<◌, ◌≡◌, refl, ap, ◌∙◌, Bool, false, not, some, List, [], ◌∷◌, ℤ,
  pos, get_elem?, get_or, set, length, arith, if◌then◌else◌, ==_ne, IsInt, u32_of_int, int_of_u32,
  u32_of_int-lt, int_of_u32-u32_of_int, set-set, get_elem?-set_self,
}
use klee_testfs.Bytes.{bytes_of, get_word, get_int}
use klee_testfs.Bytes.Laws.{word_of-bytes_of}
use klee_testfs.Machine.{
  Machine, Dinode, Inode, Ptr, Outcome, ok, ◌>>◌, expect, undefined, fetch, store, live, free_inode,
}
use klee_testfs.Machine.Run.{then_ok, assert_then}
use klee_testfs.Inode.Cache.{
  encode_dinode, decode_dinode, get_inode, put_inode, inode_hash_remove, inode_hash_find,
}

-- What a dinode can hold: ints, four direct blocks, a type of 32 bits.
pub record IsDinode (d : Dinode) : Type 0 where
  pub type_fits : d.i_type < 2 ^ 32
  pub size_fits : IsInt d.i_size
  pub time_fits : IsInt d.i_mod_time
  pub four : length d.i_block_nr ≡ 4
  pub blocks_fit : (j : ℕ) → j < 4 → IsInt (get_or d.i_block_nr j (pos 0))
  pub indirect_fits : IsInt d.i_indirect

pub length-encode_dinode : (d : Dinode) → length (encode_dinode d) ≡ 32
unfolding encode_dinode
length-encode_dinode d = refl

four_entries :
    (xs : List ℤ)
    → length xs ≡ 4
    → get_or xs 0 (pos 0) ∷ get_or xs 1 (pos 0) ∷ get_or xs 2 (pos 0) ∷ get_or xs 3 (pos 0) ∷ []
      ≡ xs
four_entries (a ∷ b ∷ c ∷ d ∷ []) e = refl
four_entries [] e = absurd (omega arith)
four_entries (a ∷ []) e = absurd (omega arith)
four_entries (a ∷ b ∷ []) e = absurd (omega arith)
four_entries (a ∷ b ∷ c ∷ []) e = absurd (omega arith)
four_entries (a ∷ b ∷ c ∷ d ∷ x ∷ xs) e = absurd (omega arith)

-- An int through its four bytes.
int_back : (z : ℤ) (w : ℕ) → IsInt z → w ≡ u32_of_int z → int_of_u32 w ≡ z
int_back z w fits e = ap int_of_u32 e ∙ int_of_u32-u32_of_int z fits

word_back : (z : ℤ) → get_word (bytes_of (u32_of_int z)) 0 ≡ u32_of_int z
unfolding get_word
word_back z = word_of-bytes_of (u32_of_int z) (u32_of_int-lt z)

-- A struct dinode written to a block and read from it is the same: decoding undoes encoding.
pub decode_dinode-encode_dinode : (d : Dinode) → IsDinode d → decode_dinode (encode_dinode d) ≡ d
unfolding decode_dinode encode_dinode get_int get_word
decode_dinode-encode_dinode d is = λ i. record {
  i_type = word_of-bytes_of d.i_type is.type_fits i;
  i_size = int_back d.i_size _ is.size_fits (word_of-bytes_of _ (u32_of_int-lt d.i_size)) i;
  i_mod_time =
      int_back d.i_mod_time _ is.time_fits (word_of-bytes_of _ (u32_of_int-lt d.i_mod_time)) i;
  i_block_nr = (blocks ∙ four_entries d.i_block_nr is.four) i;
  i_indirect =
      int_back d.i_indirect _ is.indirect_fits (word_of-bytes_of _ (u32_of_int-lt d.i_indirect)) i;
}
  where
    entry :
        (j : ℕ)
        → j < 4
        → int_of_u32 (get_word (bytes_of (u32_of_int (get_or d.i_block_nr j (pos 0)))) 0)
          ≡ get_or d.i_block_nr j (pos 0)
    entry j h = int_back _ _ (is.blocks_fit j h) (word_back (get_or d.i_block_nr j (pos 0)))

    blocks :
        int_of_u32 (get_word (bytes_of (u32_of_int (get_or d.i_block_nr 0 (pos 0)))) 0)
          ∷ int_of_u32 (get_word (bytes_of (u32_of_int (get_or d.i_block_nr 1 (pos 0)))) 0)
          ∷ int_of_u32 (get_word (bytes_of (u32_of_int (get_or d.i_block_nr 2 (pos 0)))) 0)
          ∷ int_of_u32 (get_word (bytes_of (u32_of_int (get_or d.i_block_nr 3 (pos 0)))) 0)
          ∷ []
        ≡ get_or d.i_block_nr 0 (pos 0)
          ∷ get_or d.i_block_nr 1 (pos 0)
          ∷ get_or d.i_block_nr 2 (pos 0)
          ∷ get_or d.i_block_nr 3 (pos 0)
          ∷ []
    blocks = λ i.
        entry 0 (omega arith) i
        ∷ entry 1 (omega arith) i
        ∷ entry 2 (omega arith) i
        ∷ entry 3 (omega arith) i
        ∷ []

-- `*p` is the inode `i`.
abbrev pub Holds : Machine → Ptr → Inode → Type 0
Holds m p i = get_elem? m.heap p ≡ some (some i)

pub fetch-ok : (m : Machine) (p : Ptr) {i : Inode} → Holds m p i → fetch p m ≡ ok i m
unfolding fetch live
fetch-ok m p h = ap (λ c. expect undefined (live c) m) h

-- The state with another inode there.
abbrev pub with_inode : Machine → Ptr → Inode → Machine
with_inode m p i = record m { heap = set m.heap p (some i) }

pub get_elem?-lt {ℓ} :
    {A : Type ℓ} (xs : List A) (i : ℕ) {a : A} → get_elem? xs i ≡ some a → i < length xs
get_elem?-lt [] i h = absurd (cc)
get_elem?-lt (x ∷ xs) zero h = omega arith
get_elem?-lt (x ∷ xs) (suc i) h = omega (arith, get_elem?-lt xs i h)

pub set-get_elem? {ℓ} :
    {A : Type ℓ} (xs : List A) (i : ℕ) (a : A) → get_elem? xs i ≡ some a → set xs i a ≡ xs
set-get_elem? [] i a h = refl
set-get_elem? (x ∷ xs) zero a h = ground arith
set-get_elem? (x ∷ xs) (suc i) a h = ap (λ r. x ∷ r) (set-get_elem? xs i a h)

pub Holds-with_inode :
    (m : Machine) (p : Ptr) (j : Inode) {i : Inode} → Holds m p i → Holds (with_inode m p j) p j
Holds-with_inode m p j h = get_elem?-set_self m.heap p (some j) (get_elem?-lt m.heap p h)

-- The reference taken, and given back.
pub reference :
    {m : Machine} {p : Ptr} {i : Inode} (nr : ℕ)
    → inode_hash_find nr m ≡ ok (some p) m
    → Holds m p i
    → i.dirty ≡ false
    → 0 < i.i_count
    → (n : Machine) × (get_inode nr m ≡ ok p n)
      × Holds n p (record i { i_count = i.i_count + 1 })
      × (put_inode p n ≡ ok tt m)
unfolding get_inode put_inode store
reference {m} {p} {i} nr found holds clean counted = (
  with_inode m p taken,
  then_ok _ found ∙ then_ok _ (fetch-ok m p holds),
  Holds-with_inode m p taken holds,
  then_ok _ (fetch-ok (with_inode m p taken) p (Holds-with_inode m p taken holds))
      ∙ assert_then _ _ (ap not clean)
      ∙ ap (λ c. if_last c) (==_ne (i.i_count + 1) 1 (omega (arith, counted)))
      ∙ ap (λ h. ok tt (record m { heap = h })) back,
)
  where
    taken : Inode
    taken = record i { i_count = i.i_count + 1 }

    given : Inode
    given = record taken { i_count = taken.i_count - 1 }

    if_last : Bool → Outcome (Unit {0})
    if_last c =
        (if c then (inode_hash_remove p i.i_nr >> free_inode p) else store p given)
          (with_inode m p taken)

    count : (a : ℕ) → 0 < a → a + 1 - 1 ≡ a
    count a h = omega arith

    back : set (set m.heap p (some taken)) p (some given) ≡ m.heap
    back =
        set-set m.heap p (some taken) (some given)
        ∙ ap (λ c. set m.heap p (some (record i { i_count = c }))) (count i.i_count counted)
        ∙ set-get_elem? m.heap p (some i) holds

-- A reference to an inode in memory that is taken and given back leaves the state as it was:
-- testfs_get_inode of a number that the hash table finds returns the inode found, and
-- testfs_put_inode of it, if it is clean and was referenced before, undoes that exactly.
pub put_inode-get_inode :
    {m : Machine} {p : Ptr} {i : Inode} (nr : ℕ)
    → inode_hash_find nr m ≡ ok (some p) m
    → Holds m p i
    → i.dirty ≡ false
    → 0 < i.i_count
    → (n : Machine) × (get_inode nr m ≡ ok p n) × (put_inode p n ≡ ok tt m)
put_inode-get_inode nr found holds clean counted =
    let (n, got, here, put) = reference nr found holds clean counted in (n, got, put)
