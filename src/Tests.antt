-- ===== src/Tests.antt =====
-- Runs of the whole program on a small scale, and the theorems at concrete inputs.
pub mod Mounted
mod Directories
mod Programs
mod Files
mod Examples
use klee_testfs.Common.{
  ℕ, zero, suc, ◌+◌, ◌-◌, ◌*◌, ◌/◌, ◌%◌, ◌^◌, ◌≡◌, refl, Bool, true, false, Option, none, some,
  List, [], ◌∷◌, ◌++◌, ℤ, pos, negsuc, replicate,
}
use klee_testfs.Bytes.{Bytes}
use klee_testfs.Machine.{
  Machine, Device, Output, Outcome, ok, stop, M, pure, ◌>>=◌, ◌>>◌, get, expect, undefined, i_file,
  fetch, store, malloc, live,
}
use klee_testfs.Bitmap
use klee_testfs.Block
use klee_testfs.Csum
use klee_testfs.Super.Freemap
use klee_testfs.Super.Mount.{
  make_super_block, make_inode_freemap, make_block_freemap, make_csum_table, make_inode_blocks,
  made_super_block, close_super_block, init_super_block,
}
use klee_testfs.Inode.Cache.{get_inode, sync_inode, put_inode}
use klee_testfs.Inode.Blocks
use klee_testfs.Inode.Data.{create_inode, write_data, read_data, truncate_data, remove_inode}

-- hash_int of list.h
abbrev golden : ℕ → ℕ → ℕ
golden val bits = val * 0x9e370001 % 2 ^ 32 / 2 ^ (32 - bits)

abbrev powered_on : Machine
powered_on = record {
  dev = record { blocks = []; position = 0 };
  sb = made_super_block;
  heap = [];
  hash_table = none;
  mallocs = [];
  stdout = [];
  time = 1500000000;
  hash_int = golden;
}

abbrev returned : {A : Type 0} → Outcome A → Option A
returned (ok a m) = some a
returned (stop s) = none

-- mktestfs up to the root directory, and the image mounted.
format : M ℤ
unfolding make_super_block make_inode_freemap make_block_freemap make_csum_table make_inode_blocks
    close_super_block init_super_block
format = do
  make_super_block
  make_inode_freemap
  make_block_freemap
  make_csum_table
  make_inode_blocks
  close_super_block
  init_super_block

abbrev hello : Bytes
hello = 104 ∷ 101 ∷ 108 ∷ 108 ∷ 111 ∷ []

session : M (ℤ × Bytes)
unfolding format create_inode write_data read_data sync_inode put_inode get_inode
session = do
  _ ← format
  (ret, p) ← create_inode i_file
  p ← expect undefined p
  ret ← write_data p 0 (replicate 300 7)
  ret ← write_data p 250 hello
  sync_inode p
  put_inode p
  p ← get_inode 0
  read_data p 248 10

session_result : Option (ℤ × Bytes)
session_result = returned (session powered_on)

formatted : Option ℤ
formatted = returned (format powered_on)
