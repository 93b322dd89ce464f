-- ===== src/Inode/Data/Write.antt =====
-- testfs_write_data within one block of a file, and the bytes read back.
use klee_testfs.Common.{
  ℕ, suc, ◌+◌, ◌-◌, ◌/◌, ◌%◌, ◌≤◌, ◌<◌, ◌≡◌, ◌≢◌, refl, ap, ◌∙◌, Bool, true, false, some, ℤ, pos,
  is_neg, is_pos, not, le_int, get_elem?, get_or, length, slice, splice, take, leb, ltb, le→leb,
  lt→ltb, if◌then◌else◌, ==_ne, arith, slice-splice, length-splice,
}
use klee_testfs.Bytes.{Bytes, IsBytes, get_word}
use klee_testfs.Bytes.Laws.{IsBytes-append, IsBytes-take, IsBytes-drop}
use klee_testfs.Bitmap.{Bitmap}
use klee_testfs.Machine.{Machine, Inode, Ptr, M, ok, pure, assert, and_then, store, ◌>>◌}
use klee_testfs.Machine.Run.{then_ok, assert_then}
use klee_testfs.Block.{read_blocks}
use klee_testfs.Block.Laws.{take-length, IsImage-get_elem?}
use klee_testfs.Csum.{verify_csum}
use klee_testfs.Inode.Data.Laws.{write_block_lem}
use klee_testfs.Inode.Data.Memory.{write_block-mallocs}
use klee_testfs.Inode.Data.Read.{read_data_lem}
use klee_testfs.Super.Mounted.{Mounted}
use klee_testfs.Inode.Cache.Laws.{Holds, fetch-ok, with_inode, Holds-with_inode}
use klee_testfs.Inode.Blocks.{read_block, allocate_block, allocate_direct, allocate_indirect}
use klee_testfs.Inode.Blocks.Laws.{get_block-direct, read_block-ok}
use klee_testfs.Inode.Data.{
  read_data, write_block, write_loop, write_failed, write_data, with_size, max_int, copy_size,
}

-- A block that a direct slot names already is found, not made.
allocate_block-found :
    (m : Machine) (p : Ptr) {i : Inode} (holds : Holds m p i) (log k : ℕ) (block : Bytes)
    → log < 4
    → get_or i.din.i_block_nr log (pos 0) ≡ pos (192 + k)
    → get_elem? m.dev.blocks (192 + k) ≡ some block
    → allocate_block p log m ≡ ok (pos (192 + k), block) m
unfolding allocate_block
allocate_block-found m p holds log k block direct allocated there =
    then_ok _ (
      get_block-direct m p holds log direct
      ∙ ap (λ z. read_block z m) allocated
      ∙ read_block-ok k m block there)
    ∙ ap (λ c. (if not c then pure (pos (192 + k), block) else otherwise) m)
        (==_ne (192 + k) 0 (λ e. omega arith))
  where
    otherwise : M (ℤ × Bytes)
    otherwise = if ltb log 4 then allocate_direct p log else allocate_indirect p (log - 4)

max_int-le : (a : ℤ) (n : ℕ) → le_int (pos n) (max_int a (pos n)) ≡ true
max_int-le a n = by_order (le_int (pos n) a) refl
  where
    by_order : (c : Bool) → le_int (pos n) a ≡ c → le_int (pos n) (if c then a else pos n) ≡ true
    by_order true e = e
    by_order false e = le→leb n n (omega arith)

-- The block after the write.
abbrev pub overwritten : ℕ → Bytes → Bytes → Bytes
overwritten start buf block = splice (start % 64) buf block

module _ (start : ℕ) (buf block : Bytes) (within : start % 64 + length buf ≤ 64)
    (size : length block ≡ 64) where
  length-overwritten : length (overwritten start buf block) ≡ 64
  length-overwritten = length-splice (start % 64) buf block (omega (arith, within, size)) ∙ size

  slice-overwritten : slice (start % 64) (length buf) (overwritten start buf block) ≡ buf
  slice-overwritten = slice-splice (start % 64) buf block (omega (arith, size))

  overwritten-IsBytes : IsBytes buf → IsBytes block → IsBytes (overwritten start buf block)
  unfolding splice
  overwritten-IsBytes hb h =
      IsBytes-append (take (start % 64) block) _ (IsBytes-take (start % 64) block h)
        (IsBytes-append buf _ hb (IsBytes-drop (start % 64 + length buf) block h))

module _ (p : Ptr) (start k : ℕ) (buf block : Bytes) (within : start % 64 + length buf ≤ 64) where
  -- The rest of the round, once the block is there, by whether the buffer ends in it.
  abbrev one_round : Bool → M ℤ
  one_round ends = do
    let n = if ends then length buf else 64 - start % 64
    write_block (pos (192 + k)) (splice (start % 64) (slice 0 n buf) block)
    if ends
        then pure (pos 0)
        else write_loop (length buf) p start 0 (0 + n) (slice n (length buf - n) buf)

  write_loop-last :
      (m n : Machine)
      → allocate_block p (start / 64) m ≡ ok (pos (192 + k), block) m
      → write_block (pos (192 + k)) (overwritten start buf block) m ≡ ok tt n
      → write_loop (length buf + 1) p start (start % 64) 0 buf m ≡ ok (pos 0) n
  unfolding write_loop slice
  write_loop-last m n found run =
      ap (λ f. write_loop f p start (start % 64) 0 buf m) one_more
      ∙ ap (λ a. and_then (allocate_block p (a / 64) m) (λ r. after r)) no_more
      ∙ then_ok _ found
      ∙ assert_then _ m (lt→ltb 0 (192 + k) (omega arith))
      ∙ ap (λ c. one_round c m) (le→leb (length buf) (64 - start % 64) (omega (arith, within)))
      ∙ ap
          (λ bs.
            and_then (write_block (pos (192 + k)) (splice (start % 64) bs block) m)
              (λ _. pure (pos 0)))
          (take-length (length buf) buf refl)
      ∙ then_ok _ run
    where
      one_more : length buf + 1 ≡ suc (length buf)
      one_more = omega arith

      no_more : start + 0 ≡ start
      no_more = omega arith

      after : ℤ × Bytes → M ℤ
      after (nr, b) = if is_neg nr then write_failed p start 0 >> pure nr else do
        assert (is_pos nr)
        let n = copy_size (start % 64) (length buf)
        write_block nr (splice (start % 64) (slice 0 n buf) b)
        if leb (length buf) (64 - start % 64)
            then pure (pos 0)
            else write_loop (length buf) p start 0 (0 + n) (slice n (length buf - n) buf)

module _ {m : Machine} {inodes blocks : Bitmap} {table : Bytes} (is : Mounted m inodes blocks table)
    (p : Ptr) {i : Inode} (holds : Holds m p i) (start k : ℕ) (buf block : Bytes)
    (direct : start / 64 < 4) (within : start % 64 + length buf ≤ 64)
    (starts : le_int (pos start) i.din.i_size ≡ true)
    (allocated : get_or i.din.i_block_nr (start / 64) (pos 0) ≡ pos (192 + k)) (inside : k < 960)
    (there : get_elem? m.dev.blocks (192 + k) ≡ some block) (hb : IsBytes buf)
    (h : IsBytes block) where
  abbrev pub enlarged : Inode
  enlarged = with_size i (max_int i.din.i_size (pos (start + length buf)))

  -- What testfs_write_data leaves: the block overwritten, and then the inode changed.
  pub write_data_lem :
      (n : Machine) × (t : Bytes) × Mounted n inodes blocks t
      × (write_data p start buf m ≡ ok (pos 0) (with_inode n p enlarged))
      × (get_elem? n.dev.blocks (192 + k) ≡ some (overwritten start buf block))
      × Holds n p i
      × (n.mallocs ≡ m.mallocs)
  unfolding write_data store
  write_data_lem = from_block (
      write_block_lem is k inside (overwritten start buf block)
        (length-overwritten start buf block within size)
        (overwritten-IsBytes start buf block within size hb h))
    where
      size : length block ≡ 64
      size = IsImage-get_elem? m.dev.blocks (192 + k) block is.image there

      from_block :
          (n : Machine) × (t : Bytes) × (write_block (pos (192 + k)) (overwritten start buf block) m
              ≡ ok tt n)
            × Mounted n inodes blocks t
            × (verify_csum (pos (192 + k)) n ≡ ok (pos 0) n)
            × (read_blocks (pos (192 + k)) 1 n ≡ ok (overwritten start buf block) n)
            × ((j : ℕ) → j ≢ k → get_word t j ≡ get_word table j)
            × ((j : ℕ)
                → 64 ≤ j
                → j < length m.dev.blocks
                → j ≢ 192 + k
                → get_elem? n.dev.blocks j ≡ get_elem? m.dev.blocks j)
            × (get_elem? n.dev.blocks (192 + k) ≡ some (overwritten start buf block))
            × (n.heap ≡ m.heap)
          → (n : Machine) × (t : Bytes) × Mounted n inodes blocks t
            × (write_data p start buf m ≡ ok (pos 0) (with_inode n p enlarged))
            × (get_elem? n.dev.blocks (192 + k) ≡ some (overwritten start buf block))
            × Holds n p i
            × (n.mallocs ≡ m.mallocs)
      from_block (n, t, run, mounted, verified, read, sums, same, written_there, heap) =
          let here : Holds n p i = ap (λ h. get_elem? h p) heap ∙ holds in
          let found = allocate_block-found m p holds (start / 64) k block direct allocated there in
          (
            n,
            t,
            mounted,
            then_ok _ (fetch-ok m p holds)
                ∙ assert_then _ m starts
                ∙ then_ok _ (write_loop-last p start k buf block within m n found run)
                ∙ then_ok _ (fetch-ok n p here),
            written_there,
            here,
            write_block-mallocs (pos (192 + k)) (overwritten start buf block) m n run,
          )

  -- testfs_write_data of a range that starts within the file and lies within one of its direct blocks,
  -- which is one of the first 960 data blocks of a mounted file system and is on the image: it returns
  -- 0, the inode in memory is dirty with the larger of the two sizes and otherwise as it was, and
  -- testfs_read_data of the range then returns the bytes written.
  pub write_data-read_data :
      (n : Machine) × (t : Bytes) × (o : Machine) × Mounted n inodes blocks t
      × (write_data p start buf m ≡ ok (pos 0) o)
      × (o ≡ with_inode n p (with_size i (max_int i.din.i_size (pos (start + length buf)))))
      × (read_data p start (length buf) o ≡ ok (pos 0, buf) o)
  write_data-read_data =
      let (n, t, mounted, run, written_there, here, _) = write_data_lem in
      (
        n,
        t,
        with_inode n p enlarged,
        mounted,
        run,
        refl,
        read_data_lem (with_inode n p enlarged) p (Holds-with_inode n p enlarged here) start
              (length buf) k (overwritten start buf block) direct within
              (max_int-le i.din.i_size (start + length buf)) allocated written_there
            ∙ ap (λ bs. ok (pos 0, bs) (with_inode n p enlarged))
                (slice-overwritten start buf block within
                  (IsImage-get_elem? m.dev.blocks (192 + k) block is.image there)),
      )
