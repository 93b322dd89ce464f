-- ===== src/Termination/Reads.antt =====
-- inode.c: reading ends by itself and leaves the files as they were.
use klee_testfs.Common.{
  ◌≡◌, refl, false, ℤ, pos, negsuc, ℕ, zero, suc, ◌+◌, ◌-◌, ◌%◌, ◌<◌, Option, none, some, get_elem?,
  leb,
}
use klee_testfs.Bytes.{Bytes}
use native.Mathlib.Omega.{arith}
use klee_testfs.Machine.{Machine, ok, exited, Ptr, Inode, abort, block_size}
use klee_testfs.Machine.Runs.{Runs, Ends, reading, runs_rules, Runs-bind, Runs-pure}
use klee_testfs.Block.{ftell, fseek, fread_block, fread, read_blocks}
use klee_testfs.Inode.Blocks.{get_block, get_indirect_block, read_block}
use klee_testfs.Inode.Data.{read_loop, read_data}

pub ftell-Runs : Runs reading ftell
unfolding reading
ftell-Runs = record { at = λ m _. reading.stay m }

pub fseek-Runs : (start : ℤ) → Runs reading (fseek start)
unfolding reading
fseek-Runs (pos start) = record {
  at = λ m _. record { blocks = refl; sb = refl; heap = refl; hash_table = refl; hash_int = refl };
}
fseek-Runs (negsuc n) = record { at = λ m _. tt }

fread_block-Runs : Runs reading fread_block
unfolding fread_block reading
fread_block-Runs = record { at = λ m _. one m (get_elem? m.dev.blocks m.dev.position) }
  where
    one :
        (m : Machine) (o : Option Bytes)
        → Ends {A = Bytes} reading m (elim o [
          | none ↦ abort exited m
          | some b ↦ ok b (record m { dev = record (m.dev) { position = m.dev.position + 1 } })
        ])
    one m none = tt
    one m (some b) = record {
      blocks = refl;
      sb = refl;
      heap = refl;
      hash_table = refl;
      hash_int = refl;
    }

ruleset read_rules = (runs_rules, ftell-Runs, fseek-Runs, fread_block-Runs)

fread-Runs : (nr : ℕ) → Runs reading (fread nr)
unfolding fread
fread-Runs zero = search read_rules
fread-Runs (suc nr) =
    Runs-bind _ _ fread_block-Runs (λ b. Runs-bind _ _ (fread-Runs nr) (λ rest. Runs-pure _))

pub read_blocks-Runs : (start : ℤ) (nr : ℕ) → Runs reading (read_blocks start nr)
unfolding read_blocks
read_blocks-Runs start nr = search (read_rules, fread-Runs)

read_block-Runs : (nr : ℤ) → Runs reading (read_block nr)
unfolding read_block
read_block-Runs nr = search (runs_rules, read_blocks-Runs)

get_indirect_block-Runs : (i : Inode) (nr : ℕ) → Runs reading (get_indirect_block i nr)
unfolding get_indirect_block
get_indirect_block-Runs i nr = search (runs_rules, read_blocks-Runs, read_block-Runs)

pub get_block-Runs : (p : Ptr) (nr : ℕ) → Runs reading (get_block p nr)
unfolding get_block
get_block-Runs p nr = search (runs_rules, read_block-Runs, get_indirect_block-Runs)

pub zero_in_block : 0 < block_size
zero_in_block = omega arith

pub in_block : (start : ℕ) → start % block_size < block_size
in_block start = ground arith

pub enough : (size : ℕ) → size < size + 1
enough size = omega arith

read_left_after :
    (fuel b_offset left : ℕ)
    → leb left (block_size - b_offset) ≡ false
    → left < suc fuel
    → b_offset < block_size
    → left - (block_size - b_offset) < fuel
read_left_after fuel b_offset left long h hb = ground arith

read_loop-Runs :
    (fuel : ℕ) (p : Ptr) (start b_offset : ℕ) (buf : Bytes) (left : ℕ)
    → left < fuel
    → b_offset < block_size
    → Runs reading (read_loop fuel p start b_offset buf left)
unfolding read_loop
read_loop-Runs zero p start b_offset buf left h hb = ground arith
read_loop-Runs (suc fuel) p start b_offset buf left h hb =
    search (runs_rules, get_block-Runs, read_loop-Runs fuel, read_left_after, zero_in_block) depth 9

pub read_data-Runs : (p : Ptr) (start size : ℕ) → Runs reading (read_data p start size)
unfolding read_data
read_data-Runs p start size = search (runs_rules, read_loop-Runs, enough, in_block)
