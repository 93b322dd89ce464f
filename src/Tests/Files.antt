-- ===== src/Tests/Files.antt =====
-- Files of one block at concrete inputs: one that holds the text hello world.
use klee_testfs.Common.{◌≡◌, refl, some, [], ◌∷◌, ◌++◌, pos, replicate, slice, arith}
use klee_testfs.Bytes.{Bytes}
use klee_testfs.Bytes.Laws.{IsBytes-zeros}
use klee_testfs.Machine.{◌>>◌, tx_none, Machine, Inode, ok}
use klee_testfs.Text.{codes}
use klee_testfs.Block.Laws.{written, get_elem?-put_block_self}
use klee_testfs.Super.Mounted.{heap-Mounted, Mounted}
use klee_testfs.Inode.Cache.Laws.{Holds}
use klee_testfs.Dir.Contents.{IsName}
use klee_testfs.File.{cat_inode, oread_inode, write_inode, released}
use klee_testfs.File.Rounds.{retake, left_behind, cat_inode-write_inode}
use klee_testfs.File.Contents.{IsFile, printed, oread_inode-IsFile}
use klee_testfs.Tests.Mounted.{
  inode_map, block_map, dirty_file, clean_file, short_file, mounted, mounted-Mounted,
}

abbrev hi : Bytes
hi = codes "hello world"

hi-IsName : IsName hi
hi-IsName = (
  omega arith,
  omega arith,
  (
    omega arith,
    omega arith,
    (
      omega arith,
      omega arith,
      (
        omega arith,
        omega arith,
        (
          omega arith,
          omega arith,
          (
            omega arith,
            omega arith,
            (
              omega arith,
              omega arith,
              (
                omega arith,
                omega arith,
                (
                  omega arith,
                  omega arith,
                  (omega arith, omega arith, (omega arith, omega arith, tt)),
                ),
              ),
            ),
          ),
        ),
      ),
    ),
  ),
)

-- The file of ten bytes, open twice.
abbrev shared_file : Inode
shared_file = record short_file { i_count = 2 }

abbrev with_shared : Machine
with_shared = record mounted { heap = some dirty_file ∷ some clean_file ∷ some shared_file ∷ [] }

cat_inode-write_inode_example :
    (n : Machine) × (t : Bytes) × Mounted n inode_map block_map t
    × (released 2 (write_inode 2 (pos 0) hi) with_shared ≡ ok (pos 0) n)
    × (n.sb.tx_in_progress ≡ tx_none)
    × Holds n 2 (left_behind shared_file hi)
    × ((retake 2 >> released 2 (cat_inode 2)) n ≡ ok (pos 0) (printed n hi))
cat_inode-write_inode_example =
    cat_inode-write_inode
      (heap-Mounted (some dirty_file ∷ some clean_file ∷ some shared_file ∷ []) mounted-Mounted) 2
      refl (omega arith) (omega arith) refl 0 10 hi (replicate 64 0) (omega arith)
      (λ e. omega (arith, e)) refl (omega arith) refl refl (IsBytes-zeros 64) hi-IsName
      (omega arith) (omega arith) refl

abbrev hi_file : Inode
hi_file = record short_file { din = record (short_file.din) { i_size = pos 11 } }

abbrev with_hi : Machine
with_hi = record (written mounted 192 (hi ++ replicate 53 0)) {
  heap = some dirty_file ∷ some clean_file ∷ some hi_file ∷ [];
}

hi_file-IsFile : IsFile with_hi 2 hi_file 0 hi (replicate 53 0)
hi_file-IsFile = record {
  holds = refl;
  is_file = λ e. omega (arith, e);
  size = refl;
  direct = refl;
  there = get_elem?-put_block_self mounted.dev.blocks 192 (hi ++ replicate 53 0);
  is_text = hi-IsName;
  full = omega arith;
  short = omega arith;
  granted = refl;
}

oread_inode-IsFile_example :
    oread_inode 2 6 20 with_hi ≡ ok (pos 0) (printed with_hi (slice 6 20 hi))
oread_inode-IsFile_example = oread_inode-IsFile hi_file-IsFile 6 20 (omega arith)
