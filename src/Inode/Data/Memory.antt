-- ===== src/Inode/Data/Memory.antt =====
-- block.c, csum.c and inode.c: a block written with its checksum takes no memory.
use klee_testfs.Common.{ℕ, zero, suc, ◌+◌, ◌≡◌, refl, sym, ◌∙◌, subst, ℤ, pos, negsuc}
use klee_testfs.Bytes.{Bytes}
use klee_testfs.Machine.{Machine, Outcome, ok, put}
use klee_testfs.Machine.Runs.{
  Frame, Ends, Runs, runs_rules, since, Runs-with, Runs-weaken, Runs-bind, Runs-pure,
}
use klee_testfs.Block.{ftell, fseek, fwrite_block, fwrite_from, write_blocks}
use klee_testfs.Csum.{csum_index, put_csum, write_csum, calculate_csum}
use klee_testfs.Inode.Data.{write_block}

-- The allocations to come are as they were.
unfoldable frugal : Frame
frugal = record {
  holds = λ m. Unit {0};
  keeps = λ m n. n.mallocs ≡ m.mallocs;
  stay = λ m. refl;
  join = λ h k. k ∙ h;
  kept = λ s h. tt;
}

fseek-Runs : (z : ℤ) → Runs frugal (fseek z)
unfolding frugal
fseek-Runs (pos n) = record { at = λ m _. refl }
fseek-Runs (negsuc n) = record { at = λ m _. tt }

ftell-Runs : Runs frugal ftell
unfolding frugal
ftell-Runs = record { at = λ m _. refl }

fwrite_block-Runs : (b : Bytes) → Runs frugal (fwrite_block b)
unfolding fwrite_block frugal
fwrite_block-Runs b = record { at = λ m _. refl }

fwrite_from-Runs : (buf : Bytes) (i nr : ℕ) → Runs frugal (fwrite_from buf i nr)
unfolding fwrite_from
fwrite_from-Runs buf i zero = Runs-pure tt
fwrite_from-Runs buf i (suc nr) =
    Runs-bind _ _ (fwrite_block-Runs _) (λ _. fwrite_from-Runs buf (i + 1) nr)

write_blocks-Runs : (buf : Bytes) (start : ℤ) (nr : ℕ) → Runs frugal (write_blocks buf start nr)
unfolding write_blocks
write_blocks-Runs buf start nr =
    search (runs_rules, fwrite_from-Runs, ftell-Runs, fseek-Runs) depth 8

csum_index-Runs : (f : Frame) (z : ℤ) → Runs f (csum_index z)
csum_index-Runs f (pos n) = search runs_rules
csum_index-Runs f (negsuc n) = search runs_rules

put-Runs : (m n : Machine) → n.mallocs ≡ m.mallocs → Runs (since frugal m) (put n)
unfolding frugal since
put-Runs m n same = record { at = λ o h. same ∙ sym h.0 }

kept_since :
    {A : Type 0} (m : Machine) (c : Machine → Outcome A) → Runs frugal c → Runs (since frugal m) c
unfolding since
kept_since m c h = Runs-weaken frugal (since frugal m) c (λ n held. held.1) (λ n o k. k) h

write_csum-Runs : (nr : ℕ) → Runs frugal (write_csum nr)
unfolding write_csum
write_csum-Runs nr = search (runs_rules, write_blocks-Runs)

put_csum-Runs : (nr : ℤ) (csum : ℕ) → Runs frugal (put_csum nr csum)
unfolding put_csum
put_csum-Runs nr csum =
    search (Runs-with, runs_rules, put-Runs, kept_since, csum_index-Runs, write_csum-Runs) depth 10

calculate_csum-Runs : (buf : Bytes) (size : ℕ) → Runs frugal (calculate_csum buf size)
unfolding calculate_csum
calculate_csum-Runs buf size = search runs_rules

write_block-Runs : (nr : ℤ) (block : Bytes) → Runs frugal (write_block nr block)
unfolding write_block
write_block-Runs nr block =
    search (runs_rules, write_blocks-Runs, put_csum-Runs, calculate_csum-Runs)

pub write_block-mallocs :
    (nr : ℤ) (block : Bytes) (m n : Machine)
    → write_block nr block m ≡ ok tt n
    → n.mallocs ≡ m.mallocs
unfolding frugal
write_block-mallocs nr block m n run =
    subst (λ (o : Outcome (Unit {0})). Ends frugal m o) run ((write_block-Runs nr block).at m tt)
