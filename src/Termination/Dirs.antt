-- ===== src/Termination/Dirs.antt =====
-- dir.c: the commands that change a directory or walk a path end by themselves and keep the
-- transaction and the layout of the image.
use klee_testfs.Common.{
  ℕ, zero, suc, ◌+◌, ◌<◌, ◌≡◌, Bool, true, false, not, if◌then◌else◌, ℤ, pos, negsuc, is_neg, ◌==◌,
  ◌||◌, arith, length,
}
use klee_testfs.Bytes.{Bytes}
use klee_testfs.Machine.{Machine, M, Ptr, undefined, and_then, i_dir}
use klee_testfs.Machine.Runs.{
  Ends, Ends-bind, Runs, reading, mounting, mount_kept, runs_rules, Runs-pure, Runs-bind, Runs-if,
  Runs-abort,
}
use klee_testfs.Text.{same_string}
use klee_testfs.Dir.Entry.{Dirent, assert_dir, is_entry, rounds}
use klee_testfs.Dir.Change.{
  pad_block, write_dirent, Slot, exists, reuse, append, find_slot, fill_slot, add_dirent, is_child,
  check_empty, remove_dirent_allowed, unlink_entry, remove_from, remove_dirent, create_empty_dir,
  dot, dot_dot,
}
use klee_testfs.Termination.Disk.{malloc-Runs}
use klee_testfs.Termination.Inodes.{write_data-Runs, get_inode-Runs, put_inode-Runs}
use klee_testfs.Termination.Next.{size, size_of, is_entry-Runs, has_name-Runs}
use klee_testfs.Termination.Entries.{
  sized, Runs-sized, Runs-next, Ends-next, Ends-fetch, Ends-assert_dir, rounds_enough, size_kept,
}

pub assert_dir-Runs : (dir : Ptr) → Runs mounting (assert_dir dir)
assert_dir-Runs dir = search runs_rules

pad_block-Runs : (dir : Ptr) (offset total : ℕ) → Runs mounting (pad_block dir offset total)
unfolding pad_block
pad_block-Runs dir offset total = search (runs_rules, malloc-Runs, write_data-Runs) depth 10

write_dirent-Runs :
    (dir : Ptr) (name : Bytes) (len nr offset : ℕ)
    → Runs mounting (write_dirent dir name len nr offset)
unfolding write_dirent
write_dirent-Runs dir name len nr offset =
    search (runs_rules, malloc-Runs, write_data-Runs, pad_block-Runs) depth 10

find_slot-Runs :
    (fuel : ℕ) (dir : Ptr) (name : Bytes) (len offset n : ℕ)
    → n < offset + fuel
    → 0 < fuel
    → Runs (sized dir n) (find_slot fuel dir name len offset)
unfolding find_slot
find_slot-Runs zero dir name len offset n h hf = absurd (omega arith)
find_slot-Runs (suc fuel) dir name len offset n h hf =
    Runs-next dir n offset _ (λ next. Runs-pure (append offset))
      (λ d next inside ahead. Runs-bind _ _ (Runs-sized dir n _ (is_entry-Runs d name)) (λ found.
        Runs-if found _ _ (λ _. Runs-pure exists)
          (λ _.
            Runs-if (not (is_neg d.d_inode_nr) || not (d.d_name_len == len)) _ _
              (λ _. find_slot-Runs fuel dir name len next n (omega arith) (omega arith))
              (λ _. Runs-pure (reuse offset)))))

fill_slot-Runs :
    (dir : Ptr) (name : Bytes) (len nr : ℕ) (s : Slot) → Runs mounting (fill_slot dir name len nr s)
unfolding fill_slot
fill_slot-Runs dir name len nr exists = search runs_rules
fill_slot-Runs dir name len nr (reuse offset) = write_dirent-Runs dir name len nr offset
fill_slot-Runs dir name len nr (append offset) = search (runs_rules, write_dirent-Runs) depth 8

-- A loop over a directory, then what follows.
Ends-over :
    {A B : Type 0} (m : Machine) (dir : Ptr) (n : ℕ) (c : M A) (k : A → M B)
    → Runs (sized dir n) c
    → size_of m dir ≡ n
    → ((a : A) → Runs mounting (k a))
    → Ends mounting m (and_then (c m) k)
unfolding sized mounting
Ends-over m dir n c k h e hk =
    Ends-bind (sized dir n) mounting m (c m) k (λ o s. mount_kept s) (h.at m e)
      (λ a o s. (hk a).at o tt)

pub add_dirent-Runs : (dir : Ptr) (name : Bytes) (nr : ℕ) → Runs mounting (add_dirent dir name nr)
unfolding add_dirent
add_dirent-Runs dir name nr = record {
  at = λ m _. Ends-assert_dir mounting m dir _ (λ i e.
      Ends-over m dir (size i) _ _
        (find_slot-Runs (rounds i) dir name (length name + 1) 0 (size i) (rounds_enough i)
          (omega (arith, rounds_enough i)))
        e (λ slot. fill_slot-Runs dir name _ nr slot));
}

pub is_child-Runs : (d : Dirent) → Runs reading (is_child d)
unfolding is_child
is_child-Runs d = search (runs_rules, has_name-Runs) depth 8

check_empty-Runs :
    (fuel : ℕ) (dir : Ptr) (offset n : ℕ)
    → n < offset + fuel
    → 0 < fuel
    → Runs (sized dir n) (check_empty fuel dir offset)
unfolding check_empty
check_empty-Runs zero dir offset n h hf = absurd (omega arith)
check_empty-Runs (suc fuel) dir offset n h hf =
    Runs-next dir n offset _ (λ next. Runs-pure (pos 0))
      (λ d next inside ahead. Runs-bind _ _ (Runs-sized dir n _ (is_child-Runs d)) (λ child.
        Runs-if child _ _ (λ _. Runs-pure _)
          (λ _. check_empty-Runs fuel dir next n (omega arith) (omega arith))))

remove_dirent_allowed-Runs : (nr : ℕ) → Runs mounting (remove_dirent_allowed nr)
unfolding remove_dirent_allowed
remove_dirent_allowed-Runs nr = Runs-bind _ _ (get_inode-Runs nr) (λ dir. record {
  at = λ m _. Ends-fetch mounting m dir _ (λ i e.
      Ends-over m dir (size i) _ _
        (Runs-if (i.din.i_type == i_dir) _ _
          (λ _.
            check_empty-Runs (rounds i) dir 0 (size i) (rounds_enough i)
              (omega (arith, rounds_enough i)))
          (λ _. Runs-pure (pos 0)))
        e (λ ret. search (runs_rules, put_inode-Runs)));
})

unlink_entry-Runs :
    (dir : Ptr) (offset : ℕ) (d : Dirent) (z : ℤ) → Runs mounting (unlink_entry dir offset d z)
unfolding unlink_entry
unlink_entry-Runs dir offset d (negsuc n) = Runs-abort undefined tt
unlink_entry-Runs dir offset d (pos nr) =
    search (runs_rules, remove_dirent_allowed-Runs, write_data-Runs) depth 8

Ends-if :
    {A : Type 0} (b : Bool) (c d : M A) (m : Machine)
    → Ends mounting m (c m)
    → Ends mounting m (d m)
    → Ends mounting m ((if b then c else d) m)
Ends-if true c d m hc hd = hc
Ends-if false c d m hc hd = hd

remove_from-Ends :
    (fuel : ℕ) (dir : Ptr) (name : Bytes) (offset : ℕ) (m : Machine)
    → size_of m dir < offset + fuel
    → 0 < fuel
    → Ends mounting m (remove_from fuel dir name offset m)
unfolding remove_from mounting reading
remove_from-Ends zero dir name offset m h hf = absurd (omega arith)
remove_from-Ends (suc fuel) dir name offset m h hf =
    Ends-next mounting m dir offset _ (λ n s. mount_kept s) (λ next n s. mounting.stay n)
      (λ d next n s inside ahead.
        Ends-bind reading mounting n (is_entry d name n) _ (λ o t. mount_kept t)
          ((is_entry-Runs d name).at n tt)
          (λ found o t.
            Ends-if found _ _ o ((unlink_entry-Runs dir offset d d.d_inode_nr).at o tt) (
              remove_from-Ends fuel dir name next o
                (omega (arith, size_kept m n dir s, size_kept n o dir t)) (omega arith))))

pub remove_dirent-Runs : (dir : Ptr) (name : Bytes) → Runs mounting (remove_dirent dir name)
unfolding remove_dirent
remove_dirent-Runs dir name =
    Runs-if (same_string name dot || same_string name dot_dot) _ _ (λ _. Runs-pure _)
      (λ _. record {
        at = λ m _. Ends-fetch mounting m dir _ (λ i e.
            remove_from-Ends (rounds i) dir name 0 m (omega (arith, e, rounds_enough i))
              (omega (arith, rounds_enough i)));
      })

pub create_empty_dir-Runs : (nr : ℕ) (cdir : Ptr) → Runs mounting (create_empty_dir nr cdir)
unfolding create_empty_dir
create_empty_dir-Runs nr cdir =
    search (runs_rules, assert_dir-Runs, add_dirent-Runs, remove_dirent-Runs) depth 10
