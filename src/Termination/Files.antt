-- ===== src/Termination/Files.antt =====
-- file.c: cat, write, owrite and oread end by themselves, and a transaction that one of them opens
-- is closed when it returns.
use klee_testfs.Common.{ℕ, zero, suc, ◌+◌, not, ℤ, pos, negsuc, is_zero, ◌==◌}
use klee_testfs.Bytes.{Bytes}
use klee_testfs.Machine.{tx_write, M, Ptr, undefined, i_dir}
use klee_testfs.Machine.Runs.{
  Runs, mounting, runs_rules, Runs-mounting, Runs-pure, Runs-fetch, Runs-bind, Runs-if, Runs-option,
  Runs-int, Runs-abort,
}
use klee_testfs.Text.{strtol}
use klee_testfs.Dir.Path.{Context}
use klee_testfs.File.{
  print_buffer, cat_inode, released, cat_from, cmd_cat, to_int, write_at, write_before, write_inode,
  write_file, cmd_write, owrite_at, cmd_owrite, oread_inode, oread_at, oread_range, cmd_oread,
}
use klee_testfs.Termination.Reads.{read_data-Runs}
use klee_testfs.Termination.Disk.{store-Runs, malloc-Runs, printf-Runs}
use klee_testfs.Termination.Inodes.{
  allocate_block-Runs, get_inode-Runs, put_inode-Runs, sync_inode-Runs, write_data-Runs,
  truncate_data-Runs,
}
use klee_testfs.Termination.Paths.{argument-Runs, resolve-Runs}
use klee_testfs.Termination.Transactions.{Closes-bind, Closes-pure, Closes-commit, Runs-tx}

print_buffer-Runs : (e : ℤ × Bytes) → Runs mounting (print_buffer e)
unfolding print_buffer
print_buffer-Runs (negsuc e, buf) = Runs-abort undefined tt
print_buffer-Runs (pos n, buf) = search (runs_rules, printf-Runs) depth 8

ruleset file_rules =
    (runs_rules, malloc-Runs, printf-Runs, Runs-mounting, read_data-Runs, print_buffer-Runs)

cat_inode-Runs : (p : Ptr) → Runs mounting (cat_inode p)
unfolding cat_inode
cat_inode-Runs p = Runs-bind _ _ (Runs-fetch p) (λ i.
    Runs-if (i.din.i_type == i_dir) _ _ (λ _. Runs-pure _)
      (λ _. Runs-int i.din.i_size _ _ (λ sz. search file_rules depth 10) (λ n. Runs-pure _)))

released-Runs : (p : Ptr) (body : M ℤ) → Runs mounting body → Runs mounting (released p body)
unfolding released
released-Runs p body h =
    Runs-bind _ _ h (λ ret. Runs-bind _ _ (put_inode-Runs p) (λ _. Runs-pure ret))

cat_from-Runs : (left i : ℕ) (c : Context) → Runs mounting (cat_from left i c)
unfolding cat_from
cat_from-Runs zero i c = Runs-pure _
cat_from-Runs (suc left) i c = Runs-bind _ _ (argument-Runs c i) (λ name.
    Runs-bind _ _ (resolve-Runs c name) (λ found.
      Runs-int found.0 _ _
        (λ nr. Runs-bind _ _ (get_inode-Runs nr) (λ p.
          Runs-bind _ _ (released-Runs p _ (cat_inode-Runs p)) (λ ret.
            Runs-if (is_zero ret) _ _ (λ _. cat_from-Runs left (i + 1) found.1)
              (λ _. Runs-pure _))))
        (λ e. Runs-pure _)))

pub cmd_cat-Runs : (c : Context) → Runs mounting (cmd_cat c)
unfolding cmd_cat
cmd_cat-Runs c = search (runs_rules, cat_from-Runs)

write_before-Runs : (p : Ptr) (n : ℕ) → Runs mounting (write_before p n)
unfolding write_before
write_before-Runs p n = search (runs_rules, allocate_block-Runs, store-Runs) depth 12

write_at-Runs : (p : Ptr) (z : ℤ) (content : Bytes) → Runs mounting (write_at p z content)
unfolding write_at
write_at-Runs p (negsuc n) content = write_before-Runs p n
write_at-Runs p (pos offset) content =
    search (runs_rules, write_data-Runs, truncate_data-Runs) depth 8

write_inode-Runs :
    (p : Ptr) (offset : ℤ) (content : Bytes) → Runs mounting (write_inode p offset content)
unfolding write_inode
write_inode-Runs p offset content = Runs-bind _ _ (Runs-fetch p) (λ i.
    Runs-if (i.din.i_type == i_dir) _ _ (λ _. Runs-pure _)
      (λ _. Runs-tx tx_write _ (
        Closes-bind _ _ (write_at-Runs p offset content) (λ ret.
          Closes-bind _ _ (sync_inode-Runs p) (λ _. Closes-pure _ ret (Closes-commit tx_write))))))

write_file-Runs :
    (c : Context) (filename : Bytes) (offset : ℤ) (content : Bytes)
    → Runs mounting (write_file c filename offset content)
unfolding write_file
write_file-Runs c filename offset content = Runs-bind _ _ (resolve-Runs c filename) (λ found.
    Runs-int found.0 _ _
      (λ nr. search (runs_rules, get_inode-Runs, released-Runs, write_inode-Runs) depth 8)
      (λ e. Runs-pure _))

pub cmd_write-Runs : (c : Context) → Runs mounting (cmd_write c)
unfolding cmd_write
cmd_write-Runs c = search (runs_rules, argument-Runs, write_file-Runs) depth 8

owrite_at-Runs :
    (c : Context) (filename content : Bytes) (offset : ℤ)
    → Runs mounting (owrite_at c filename content offset)
unfolding owrite_at
owrite_at-Runs c filename content offset = search (runs_rules, write_file-Runs)

pub cmd_owrite-Runs : (c : Context) → Runs mounting (cmd_owrite c)
unfolding cmd_owrite
cmd_owrite-Runs c =
    Runs-if (not (c.nargs == 4)) _ _ (λ _. Runs-pure _)
      (λ _. Runs-bind _ _ (argument-Runs c 1) (λ filename.
        Runs-bind _ _ (argument-Runs c 3) (λ content. Runs-bind _ _ (argument-Runs c 2) (λ offset.
          Runs-option (strtol offset) _ _ (Runs-pure _)
            (λ offset. owrite_at-Runs c filename content offset)))))

oread_inode-Runs : (p : Ptr) (offset size : ℕ) → Runs mounting (oread_inode p offset size)
unfolding oread_inode
oread_inode-Runs p offset size = Runs-bind _ _ (Runs-fetch p) (λ i.
    Runs-if (i.din.i_type == i_dir) _ _ (λ _. Runs-pure _)
      (λ _. Runs-int i.din.i_size _ _ (λ sz. search file_rules depth 12) (λ n. Runs-pure _)))

oread_at-Runs :
    (c : Context) (filename : Bytes) (offset size : ℕ)
    → Runs mounting (oread_at c filename offset size)
unfolding oread_at
oread_at-Runs c filename offset size =
    Runs-if (size == 0) _ _ (λ _. Runs-pure _)
      (λ _. Runs-bind _ _ (resolve-Runs c filename) (λ found.
        Runs-int found.0 _ _
          (λ nr. search (runs_rules, get_inode-Runs, released-Runs, oread_inode-Runs) depth 8)
          (λ e. Runs-pure _)))

oread_range-Runs :
    (c : Context) (filename : Bytes) (offset size : ℤ)
    → Runs mounting (oread_range c filename offset size)
unfolding oread_range
oread_range-Runs c filename (negsuc n) size = Runs-pure _
oread_range-Runs c filename (pos offset) (negsuc n) = Runs-pure _
oread_range-Runs c filename (pos offset) (pos size) = oread_at-Runs c filename offset size

pub cmd_oread-Runs : (c : Context) → Runs mounting (cmd_oread c)
unfolding cmd_oread
cmd_oread-Runs c =
    Runs-if (not (c.nargs == 4)) _ _ (λ _. Runs-pure _)
      (λ _. Runs-bind _ _ (argument-Runs c 1) (λ filename.
        Runs-bind _ _ (argument-Runs c 2) (λ first. Runs-bind _ _ (argument-Runs c 3) (λ second.
          Runs-option (strtol first) _ _ (Runs-pure _) (λ offset.
            Runs-option (strtol second) _ _ (Runs-pure _)
              (λ size. oread_range-Runs c filename offset (to_int size)))))))
