-- ===== src/Inode/Blocks/Laws.antt =====
-- The block of an inode that testfs_allocate_block of inode.c finds or makes.
use klee_testfs.Common.{
  none, ℕ, zero, suc, ◌+◌, ◌-◌, ◌<◌, ◌≡◌, ◌⊎◌, inl, inr, refl, ap, ◌∙◌, true, some, [], ◌∷◌, List,
  ℤ, pos, minus, get_elem?, get_or, set, length, lt→ltb, if◌then◌else◌, arith,
}
use klee_testfs.Bytes.{Bytes}
use klee_testfs.Bitmap.{Bitmap, isset}
use klee_testfs.Machine.{
  stop, exited, and_then, Machine, Inode, Ptr, M, ok, enospc, ◌>>=◌, store, pure,
}
use klee_testfs.Machine.Run.{then_ok}
use klee_testfs.Block.{zero_block, read_blocks}
use klee_testfs.Block.Laws.{read_missing, read_one}
use klee_testfs.Super.Mounted.{Mounted}
use klee_testfs.Super.Freemap.Alloc.{NewBlock, alloc_block_lem}
use klee_testfs.Inode.Cache.Laws.{Holds, fetch-ok, with_inode, Holds-with_inode}
use klee_testfs.Inode.Blocks.{
  get_block, read_block, allocate_block, allocate_direct, allocate_indirect, get_indirect_block,
  with_direct,
}

get_or-set_self : (xs : List ℤ) (i : ℕ) (v : ℤ) → i < length xs → get_or (set xs i v) i (pos 0) ≡ v
get_or-set_self [] i v h = absurd (omega arith)
get_or-set_self (x ∷ xs) zero v h = refl
get_or-set_self (x ∷ xs) (suc i) v h = get_or-set_self xs i v (omega arith)

abbrev read_found : ℕ → M (ℤ × Bytes)
read_found k = do block ← read_blocks (pos (192 + k)) 1; pure (pos (192 + k), block)

read_block-positive : (k : ℕ) (m : Machine) → read_block (pos (192 + k)) m ≡ read_found k m
unfolding read_block
read_block-positive k m =
    ap (λ c. (if c then read_found k else pure (pos (192 + k), [])) m)
      (lt→ltb 0 (192 + k) (omega arith))

pub read_block-ok :
    (k : ℕ) (m : Machine) (b : Bytes)
    → get_elem? m.dev.blocks (192 + k) ≡ some b
    → read_block (pos (192 + k)) m ≡ ok (pos (192 + k), b) m
read_block-ok k m b there = read_block-positive k m ∙ then_ok _ (read_one (192 + k) m b there)

read_block-missing :
    (k : ℕ) (m : Machine)
    → get_elem? m.dev.blocks (192 + k) ≡ none
    → read_block (pos (192 + k)) m ≡ stop exited
read_block-missing k m missing =
    read_block-positive k m
    ∙ ap (λ o. and_then o (λ block. pure (pos (192 + k), block))) (read_missing (192 + k) m missing)

module _ (m : Machine) (p : Ptr) {i : Inode} (holds : Holds m p i) (log : ℕ)
    (direct : log < 4) where
  pub get_block-direct : get_block p log m ≡ read_block (get_or i.din.i_block_nr log (pos 0)) m
  unfolding get_block
  get_block-direct =
      then_ok _ (fetch-ok m p holds)
      ∙ ap
          (λ c.
            (if c
                then read_block (get_or i.din.i_block_nr log (pos 0))
                else get_indirect_block i (log - 4))
              m)
          (lt→ltb log 4 direct)

  allocate_block-empty :
      get_or i.din.i_block_nr log (pos 0) ≡ pos 0 → allocate_block p log m ≡ allocate_direct p log m
  unfolding allocate_block read_block
  allocate_block-empty empty =
      then_ok _ (get_block-direct ∙ ap (λ z. read_block z m) empty)
      ∙ ap (λ c. (if c then allocate_direct p log else allocate_indirect p (log - 4)) m)
          (lt→ltb log 4 direct)

module _ {m : Machine} {inodes blocks : Bitmap} {table : Bytes} (is : Mounted m inodes blocks table)
    (p : Ptr) {i : Inode} (holds : Holds m p i) (log : ℕ) (direct : log < 4) where
  -- testfs_allocate_block of an empty direct slot of an inode on a mounted file system: either it
  -- takes the lowest free block, which the slot of the inode in memory then names, and the inode is
  -- dirty; or the map is full, and it returns -ENOSPC and changes nothing. After the first,
  -- testfs_get_block of the slot returns that block if the image has it already, and ends the program
  -- by EXIT if the image ends before it.
  pub allocate_block_lem :
      get_or i.din.i_block_nr log (pos 0) ≡ pos 0
      → length i.din.i_block_nr ≡ 4
      → ((k : ℕ) × (n : Machine) × (o : Machine) × NewBlock is k n
          × (allocate_block p log m ≡ ok (pos (192 + k), zero_block) o)
          × (o ≡ with_inode n p (with_direct i log (pos (192 + k))))
          × ((b : Bytes)
              → get_elem? o.dev.blocks (192 + k) ≡ some b
              → get_block p log o ≡ ok (pos (192 + k), b) o)
          × (get_elem? o.dev.blocks (192 + k) ≡ none → get_block p log o ≡ stop exited))
        ⊎ ((allocate_block p log m ≡ ok (minus enospc, []) m)
            × ((j : ℕ) → j < 1024 → isset blocks j ≡ true))
  unfolding allocate_direct store
  allocate_block_lem empty four = elim (alloc_block_lem is) [
    | inl (k, n, run, new) ↦
        let here : Holds n p i = ap (λ h. get_elem? h p) new.6 ∙ holds in
        let next : Inode = with_direct i log (pos (192 + k)) in
        let held : Holds (with_inode n p next) p next = Holds-with_inode n p next here in
        inl (
          k,
          n,
          with_inode n p next,
          new,
          allocate_block-empty m p holds log direct empty
              ∙ then_ok _ run
              ∙ then_ok _ (fetch-ok n p here),
          refl,
          λ b there.
              get_block-direct (with_inode n p next) p held log direct
              ∙ ap (λ z. read_block z (with_inode n p next))
                  (get_or-set_self i.din.i_block_nr log (pos (192 + k)) (omega arith))
              ∙ read_block-ok k (with_inode n p next) b there,
          λ missing.
              get_block-direct (with_inode n p next) p held log direct
              ∙ ap (λ z. read_block z (with_inode n p next))
                  (get_or-set_self i.din.i_block_nr log (pos (192 + k)) (omega arith))
              ∙ read_block-missing k (with_inode n p next) missing,
        )
    | inr (run, full) ↦ inr (allocate_block-empty m p holds log direct empty ∙ then_ok _ run, full)
  ]
