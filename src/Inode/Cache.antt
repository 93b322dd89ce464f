-- ===== src/Inode/Cache.antt =====
-- inode.c: the hash table of the inodes in memory, and inodes fetched, written back and released.
-- An hlist is the list of its entries, first to last; `hash_int` is a parameter of the state.
pub mod Laws
pub mod Sync
use klee_testfs.Common.{
  ℕ, zero, suc, ◌+◌, ◌-◌, ◌*◌, ◌/◌, ◌%◌, ◌^◌, Bool, true, false, not, ◌&&◌, Option, none, some,
  List, [], ◌∷◌, ◌++◌, ℤ, pos, negsuc, ◌+ℤ◌, u32_of_int, int_of_u32, slice, splice, replicate,
  length, get_elem?, get_or, set, ltb, leb, ◌==◌, if◌then◌else◌,
}
use klee_testfs.Bytes.{Bytes, bytes_of, get_word, get_int}
use klee_testfs.Machine.{
  Machine, SuperBlock, Dinode, Inode, Ptr, M, ok, undefined, assertion, exited, pure, ◌>>=◌, ◌>>◌,
  abort, get, put, assert, expect, malloc, fetch, store, free_inode, block_size, nr_inode_blocks,
}
use klee_testfs.Block.{write_blocks, read_blocks}

abbrev pub inode_hash_shift : ℕ
inode_hash_shift = 8

abbrev pub inode_hash_size : ℕ
inode_hash_size = 2 ^ inode_hash_shift

-- sizeof(struct dinode), NR_DIRECT_BLOCKS and INODES_PER_BLOCK
abbrev pub dinode_size : ℕ
dinode_size = 32

abbrev pub inodes_per_block : ℕ
inodes_per_block = block_size / dinode_size

unfoldable pub encode_dinode : Dinode → Bytes
encode_dinode d =
    bytes_of d.i_type
    ++ (bytes_of (u32_of_int d.i_size)
        ++ (bytes_of (u32_of_int d.i_mod_time)
            ++ (bytes_of (u32_of_int (get_or d.i_block_nr 0 (pos 0)))
                ++ (bytes_of (u32_of_int (get_or d.i_block_nr 1 (pos 0)))
                    ++ (bytes_of (u32_of_int (get_or d.i_block_nr 2 (pos 0)))
                        ++ (bytes_of (u32_of_int (get_or d.i_block_nr 3 (pos 0)))
                            ++ bytes_of (u32_of_int d.i_indirect)))))))

unfoldable pub decode_dinode : Bytes → Dinode
decode_dinode bs = record {
  i_type = get_word bs 0;
  i_size = get_int bs 1;
  i_mod_time = get_int bs 2;
  i_block_nr = get_int bs 3 ∷ get_int bs 4 ∷ get_int bs 5 ∷ get_int bs 6 ∷ [];
  i_indirect = get_int bs 7;
}

-- What calloc and bzero leave.
abbrev pub zero_dinode : Dinode
zero_dinode = record {
  i_type = 0;
  i_size = pos 0;
  i_mod_time = pos 0;
  i_block_nr = pos 0 ∷ pos 0 ∷ pos 0 ∷ pos 0 ∷ [];
  i_indirect = pos 0;
}

unfoldable pub inode_hash_init : M (Unit {0})
inode_hash_init = do
  granted ← malloc
  if granted
      then (do m ← get; put (record m { hash_table = some (replicate inode_hash_size []) }))
      else abort exited

-- assert(hlist_empty(&inode_hash_table[i])), for each i
unfoldable pub all_empty : List (List Ptr) → Bool
all_empty [] = true
all_empty ([] ∷ chains) = all_empty chains
all_empty ((p ∷ chain) ∷ chains) = false

-- The freed table is no longer there.
unfoldable pub inode_hash_destroy : M (Unit {0})
inode_hash_destroy = do
  m ← get
  table ← expect assertion m.hash_table
  assert (all_empty table)
  put (record m { hash_table = none })

-- inode_hash_table[inode_hashfn(nr)]
unfoldable pub chain_of : ℕ → M (List Ptr)
chain_of nr = do
  m ← get
  table ← expect undefined m.hash_table
  expect undefined (get_elem? table (m.hash_int nr inode_hash_shift))

unfoldable pub set_chain : ℕ → List Ptr → M (Unit {0})
set_chain nr chain = do
  m ← get
  table ← expect undefined m.hash_table
  put (record m { hash_table = some (set table (m.hash_int nr inode_hash_shift) chain) })

-- hlist_for_each_entry, up to the inode looked for.
unfoldable pub find_in : List Ptr → ℕ → M (Option Ptr)
find_in [] nr = pure none
find_in (p ∷ chain) nr = do i ← fetch p; if i.i_nr == nr then pure (some p) else find_in chain nr

unfoldable pub inode_hash_find : ℕ → M (Option Ptr)
inode_hash_find nr = do chain ← chain_of nr; find_in chain nr

unfoldable pub inode_hash_insert : Ptr → ℕ → M (Unit {0})
inode_hash_insert p nr = do chain ← chain_of nr; set_chain nr (p ∷ chain)

-- hlist_del takes the entry out of the list that it stands in.
unfoldable pub without : Ptr → List Ptr → List Ptr
without p [] = []
without p (q ∷ chain) = if p == q then chain else q ∷ without p chain

unfoldable pub inode_hash_remove : Ptr → ℕ → M (Unit {0})
inode_hash_remove p nr = do chain ← chain_of nr; set_chain nr (without p chain)

unfoldable pub inode_to_block_nr : ℕ → M ℕ
inode_to_block_nr nr = do
  let block_nr = nr / inodes_per_block
  assert (ltb block_nr nr_inode_blocks)
  pure block_nr

unfoldable pub inode_to_block_offset : ℕ → ℕ
inode_to_block_offset nr = nr % inodes_per_block * dinode_size

unfoldable pub read_inode_block : ℕ → M Bytes
read_inode_block nr = do
  block_nr ← inode_to_block_nr nr
  m ← get
  read_blocks (m.sb.dsb.inode_blocks_start +ℤ pos block_nr) 1

unfoldable pub write_inode_block : ℕ → Bytes → M (Unit {0})
write_inode_block nr block = do
  block_nr ← inode_to_block_nr nr
  m ← get
  write_blocks block (m.sb.dsb.inode_blocks_start +ℤ pos block_nr) 1

-- calloc of a struct inode with its first fields set: a fresh address.
unfoldable pub new_inode : ℕ → M Ptr
new_inode nr = do
  granted ← malloc
  if granted
      then (do
        m ← get
        put (record m {
          heap =
              m.heap
              ++ some (record { dirty = false; din = zero_dinode; i_nr = nr; i_count = 1 }) ∷ [];
        })
        pure (length m.heap))
      else abort exited

-- testfs_get_inode, when the inode is not in memory.
unfoldable pub load_inode : ℕ → M Ptr
load_inode nr = do
  p ← new_inode nr
  block ← read_inode_block nr
  i ← fetch p
  store p (record i { din = decode_dinode (slice (inode_to_block_offset nr) dinode_size block) })
  inode_hash_insert p nr
  pure p

unfoldable pub get_inode : ℕ → M Ptr
get_inode nr = do
  found ← inode_hash_find nr
  elim found [
    | none ↦ load_inode nr
    | some p ↦ do i ← fetch p; store p (record i { i_count = i.i_count + 1 }); pure p
  ]

unfoldable pub sync_inode : Ptr → M (Unit {0})
sync_inode p = do
  i ← fetch p
  assert i.dirty
  block ← read_inode_block i.i_nr
  write_inode_block i.i_nr (splice (inode_to_block_offset i.i_nr) (encode_dinode i.din) block)
  store p (record i { dirty = false })

-- A live inode counts at least one reference.
unfoldable pub put_inode : Ptr → M (Unit {0})
put_inode p = do
  i ← fetch p
  assert (not i.dirty)
  if i.i_count == 1
      then inode_hash_remove p i.i_nr >> free_inode p
      else store p (record i { i_count = i.i_count - 1 })
