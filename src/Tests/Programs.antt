-- ===== src/Tests/Programs.antt =====
-- The programs at concrete inputs, on the small file system of Mounted.
use klee_testfs.Common.{◌++◌, replicate, ℕ, ◌+◌, ◌≤◌, ◌≡◌, refl, true, some, [], pos, length, arith}
use klee_testfs.Bytes.{Bytes}
use klee_testfs.Bitmap.{Bitmap}
use klee_testfs.Machine.{undefined, Machine, ok, stop, pure}
use klee_testfs.Machine.Runs.{Ends, mounting}
use klee_testfs.Text.{codes, same_string}
use klee_testfs.Block.{zero_block}
use klee_testfs.Super.Freemap.{alloc_block, free_block}
use klee_testfs.Super.Freemap.Free.{alloc_block_freed}
use klee_testfs.Super.Mounted.{Mounted, outside-Mounted}
use klee_testfs.Super.Empty.{no_inodes, no_blocks, no_csums}
use klee_testfs.Super.Mount.{layout, made_super_block, encode_dsuper, init_super_block}
use klee_testfs.Super.Mount.Restart.{restarted, init_super_block-Mounted}
use klee_testfs.Block.Laws.{written, get_elem?-put_block_self}
use klee_testfs.Mktestfs.Image.{make_image-Mounted}
use klee_testfs.Dir.Path.{Context}
use klee_testfs.Command.{
  Entry, cd, cmdtable, find_command, split_args, with_args, handle_command, make_symbolic,
}
use klee_testfs.Command.Laws.{with_args-split_args}
use klee_testfs.Mktestfs.{make_image, mktestfs}
use klee_testfs.Termination.Commands.{names_bounded, handle_command-Ends}
use klee_testfs.Mktestfs.Laws.{mktestfs-undefined}
use klee_testfs.Tests.Mounted.{inode_map, block_map, table, mounted, mounted-Mounted, first_used}

abbrev at_dirty_file : Context
at_dirty_file = record { nargs = 0; cmd = []; cur_dir = 0 }

abbrev two_words : Bytes
two_words = codes "a b"

cat_bounded : names_bounded (codes "cat") ≡ true
unfolding names_bounded find_command same_string
cat_bounded = refl

handle_command-Ends_example :
    Ends mounting mounted (handle_command pure at_dirty_file (some (codes "cat")) two_words mounted)
    × Ends mounting mounted (
        handle_command
          (make_symbolic (λ bs. bs))
          at_dirty_file
          (some (codes "cat"))
          two_words
          mounted)
handle_command-Ends_example =
    handle_command-Ends (λ bs. bs) at_dirty_file (codes "cat") two_words mounted cat_bounded

abbrev cd_entry : Entry
cd_entry = record { name = codes "cd"; func = cd; max_args = 2 }

cd_found : find_command (codes "cd") cmdtable ≡ some cd_entry
unfolding find_command same_string
cd_found = refl

with_args-split_args_example :
    (length (with_args at_dirty_file (codes "cd") (split_args 2 two_words)).cmd ≡ 6)
    × ((with_args at_dirty_file (codes "cd") (split_args 2 two_words)).nargs ≤ 2 + 1)
with_args-split_args_example =
    with_args-split_args at_dirty_file (codes "cd") two_words cd_entry cd_found

alloc_block_freed_example :
    (n : Machine) × (j : ℕ) × (o : Machine) × (b : Bitmap) × (free_block (pos (192 + 0)) mounted
      ≡ ok (pos 0) n)
    × (alloc_block n ≡ ok (pos (192 + j), zero_block) o)
    × (j ≤ 0)
    × Mounted o inode_map b table
alloc_block_freed_example = alloc_block_freed mounted-Mounted 0 (omega arith) first_used

make_image-Mounted_example :
    (n : Machine) × (make_image (restarted mounted mounted.sb) ≡ ok (pos 0) n)
    × Mounted n no_inodes no_blocks no_csums
make_image-Mounted_example = make_image-Mounted mounted mounted.sb (omega arith)

-- The small file system with its superblock on disk.
abbrev with_super : Machine
with_super = written mounted 0 (encode_dsuper layout ++ replicate 36 0)

with_super-Mounted : Mounted with_super inode_map block_map table
unfolding encode_dsuper
with_super-Mounted =
    outside-Mounted mounted-Mounted 0 (encode_dsuper layout ++ replicate 36 0)
      (λ j low h e. omega (arith, e)) refl

init_super_block-Mounted_example :
    (n : Machine) × (init_super_block (restarted with_super made_super_block) ≡ ok (pos 0) n)
    × Mounted n inode_map block_map table
    × (n.dev.blocks ≡ with_super.dev.blocks)
init_super_block-Mounted_example =
    init_super_block-Mounted with_super-Mounted made_super_block (omega arith)
      (get_elem?-put_block_self mounted.dev.blocks 0 (encode_dsuper layout ++ replicate 36 0))

mktestfs-undefined_example : mktestfs (restarted mounted mounted.sb) ≡ stop undefined
mktestfs-undefined_example = mktestfs-undefined mounted mounted.sb (omega arith)
