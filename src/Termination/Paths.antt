-- ===== src/Termination/Paths.antt =====
-- dir.c: a path is walked with fewer calls than it has bytes, and the command cd ends by itself.
use klee_testfs.Common.{
  ℕ, zero, suc, ◌+◌, ◌<◌, not, [], ◌∷◌, ℤ, pos, negsuc, ◌==◌, arith, length, length-drop, drop,
}
use klee_testfs.Bytes.{Bytes}
use klee_testfs.Machine.{Ptr}
use klee_testfs.Machine.Runs.{
  Runs, mounting, runs_rules, Runs-mounting, Runs-pure, Runs-bind, Runs-if, Runs-option, Runs-int,
}
use klee_testfs.Text.{same_string, index_of}
use klee_testfs.Dir.Path.{
  slash, search_entry, move_to, dir_name_to_inode_nr_rec, dir_name_to_inode_nr, Context, argument,
  resolve, change_dir, cmd_cd,
}
use klee_testfs.Termination.Disk.{malloc-Runs}
use klee_testfs.Termination.Inodes.{get_inode-Runs, put_inode-Runs}
use klee_testfs.Termination.Entries.{search_entry-Runs}
use klee_testfs.Termination.Dirs.{assert_dir-Runs}

move_to-Runs : (dir : Ptr) (nr : ℕ) → Runs mounting (move_to dir nr)
unfolding move_to
move_to-Runs dir nr = search (runs_rules, get_inode-Runs, put_inode-Runs)

search_there-Runs : (dir : Ptr) (name : Bytes) → Runs mounting (search_entry dir name)
search_there-Runs dir name = Runs-mounting _ (search_entry-Runs dir name)

rest_is_shorter :
    (fuel offset : ℕ) (x : ℕ) (xs : Bytes)
    → length (x ∷ xs) < suc fuel
    → length (drop (offset + 1) (x ∷ xs)) < fuel
rest_is_shorter fuel offset x xs h = omega (arith, length-drop (offset + 1) (x ∷ xs))

dir_name_to_inode_nr_rec-Runs :
    (fuel : ℕ) (dir : Ptr) (name : Bytes)
    → length name < fuel
    → Runs mounting (dir_name_to_inode_nr_rec fuel dir name)
unfolding dir_name_to_inode_nr_rec index_of
dir_name_to_inode_nr_rec-Runs zero dir name h = absurd (omega arith)
dir_name_to_inode_nr_rec-Runs (suc fuel) dir [] h = search (runs_rules, assert_dir-Runs) depth 8
dir_name_to_inode_nr_rec-Runs (suc fuel) dir (x ∷ xs) h = Runs-bind _ _ (assert_dir-Runs dir) (λ _.
    Runs-if (same_string (x ∷ xs) slash) _ _ (λ _. Runs-pure _)
      (λ _.
        Runs-option (index_of b'/' (x ∷ xs)) _ _ (search (runs_rules, search_there-Runs))
          (λ name_offset.
            Runs-if (name_offset == 0) _ _
              (λ _.
                Runs-bind _ _ (move_to-Runs dir 0)
                  (λ p_in. dir_name_to_inode_nr_rec-Runs fuel p_in xs (omega arith)))
              (λ _.
                Runs-if (name_offset + 1 == length (x ∷ xs)) _ _ (λ _. Runs-pure _)
                  (λ _. Runs-bind _ _ malloc-Runs (λ granted.
                    Runs-if (not granted) _ _ (λ _. Runs-pure _)
                      (λ _. Runs-bind _ _ (search_there-Runs dir _) (λ ret.
                        Runs-int ret _ _
                          (λ nr. Runs-bind _ _ (move_to-Runs dir nr) (λ p_in.
                            dir_name_to_inode_nr_rec-Runs fuel p_in _
                              (rest_is_shorter fuel name_offset x xs h)))
                          (λ e. Runs-pure _)))))))))

enough_names : (name : Bytes) → length name < length name + 1
enough_names name = omega arith

pub dir_name_to_inode_nr-Runs :
    (dir : Ptr) (name : Bytes) → Runs mounting (dir_name_to_inode_nr dir name)
unfolding dir_name_to_inode_nr
dir_name_to_inode_nr-Runs dir name =
    search (runs_rules, dir_name_to_inode_nr_rec-Runs, enough_names, put_inode-Runs, get_inode-Runs)
      depth 12

pub argument-Runs : (c : Context) (i : ℕ) → Runs mounting (argument c i)
unfolding argument
argument-Runs c i = search runs_rules

pub resolve-Runs : (c : Context) (name : Bytes) → Runs mounting (resolve c name)
unfolding resolve
resolve-Runs c name = search (runs_rules, dir_name_to_inode_nr-Runs)

change_dir-Runs : (c : Context) (z : ℤ) → Runs mounting (change_dir c z)
unfolding change_dir
change_dir-Runs c (pos nr) = search (runs_rules, get_inode-Runs, put_inode-Runs) depth 10
change_dir-Runs c (negsuc e) = Runs-pure _

pub cmd_cd-Runs : (c : Context) → Runs mounting (cmd_cd c)
unfolding cmd_cd
cmd_cd-Runs c = search (runs_rules, argument-Runs, resolve-Runs, change_dir-Runs) depth 8
