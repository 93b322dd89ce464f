-- ===== src/Termination/Creation.antt =====
-- dir.c: create, mkdir and rm end by themselves, and the transaction that one of them opens is closed
-- when it returns.
use klee_testfs.Common.{ℕ, zero, suc, ◌+◌, not, Option, none, some, is_neg, ◌==◌}
use klee_testfs.Bytes.{Bytes}
use klee_testfs.Machine.{tx_create, tx_rm, Ptr, pure, undefined, i_file}
use klee_testfs.Machine.Runs.{
  Runs, mounting, runs_rules, Runs-pure, Runs-bind, Runs-if, Runs-option, Runs-int, Runs-abort,
  Runs-expect,
}
use klee_testfs.Text.{same_string, last_index_of}
use klee_testfs.Inode.Cache.{sync_inode}
use klee_testfs.Dir.Path.{slash, Context}
use klee_testfs.Dir.Create.{
  link_inode, make_inode, make_entry, create_entry, restore, create_under, create_file_or_dir,
  create_in, create_from, cmd_create, cmd_mkdir, cmd_rm,
}
use klee_testfs.Termination.Disk.{malloc-Runs, printf-Runs}
use klee_testfs.Termination.Inodes.{
  get_inode-Runs, put_inode-Runs, sync_inode-Runs, create_inode-Runs, remove_inode-Runs,
}
use klee_testfs.Termination.Dirs.{add_dirent-Runs, remove_dirent-Runs, create_empty_dir-Runs}
use klee_testfs.Termination.Paths.{argument-Runs, resolve-Runs, cmd_cd-Runs}
use klee_testfs.Termination.Transactions.{
  Closes-bind, Closes-pure, Closes-int, Closes-commit, Runs-tx,
}

link_inode-Runs :
    (cur_dir : Option Ptr) (type : ℕ) (name : Bytes) (p : Ptr)
    → Runs mounting (link_inode cur_dir type name p)
unfolding link_inode
link_inode-Runs none type name p = search (runs_rules, create_empty_dir-Runs) depth 10
link_inode-Runs (some dir) type name p =
    search (runs_rules, create_empty_dir-Runs, add_dirent-Runs) depth 12

sync_parent-Runs :
    (cur_dir : Option Ptr)
    → Runs mounting (elim cur_dir [ none ↦ pure tt | some dir ↦ sync_inode dir ])
sync_parent-Runs none = Runs-pure tt
sync_parent-Runs (some dir) = sync_inode-Runs dir

make_inode-Runs :
    (cur_dir : Option Ptr) (type : ℕ) (name : Bytes) → Runs mounting (make_inode cur_dir type name)
unfolding make_inode
make_inode-Runs cur_dir type name = Runs-bind _ _ (create_inode-Runs type) (λ created.
    Runs-option created.1 _ _ (Runs-pure created.0) (λ p.
      Runs-bind _ _ (link_inode-Runs cur_dir type name p) (λ ret.
        Runs-if (is_neg ret) _ _ (λ _. search (runs_rules, remove_inode-Runs))
          (λ _.
            Runs-bind _ _ (sync_parent-Runs cur_dir)
              (λ _. search (runs_rules, sync_inode-Runs, put_inode-Runs) depth 8)))))

make_entry-Runs :
    (c : Option Context) (type : ℕ) (name : Bytes) → Runs mounting (make_entry c type name)
unfolding make_entry
make_entry-Runs none type name = search (runs_rules, make_inode-Runs)
make_entry-Runs (some c) type name = Runs-bind _ _ (resolve-Runs c name) (λ found.
    Runs-bind _ _
      (Runs-int found.0 _ _ (λ n. Runs-pure _)
        (λ e. make_inode-Runs (some (found.1).cur_dir) type name))
      (λ ret. Runs-pure _))

create_entry-Runs :
    (c : Option Context) (type : ℕ) (name : Bytes) → Runs mounting (create_entry c type name)
unfolding create_entry
create_entry-Runs c type name = Runs-tx tx_create _ (
    Closes-bind _ _ (make_entry-Runs c type name)
      (λ made. Closes-pure _ made (Closes-commit tx_create)))

restore-Runs : (nr : ℕ) (c : Option Context) → Runs mounting (restore nr c)
unfolding restore
restore-Runs nr none = Runs-abort undefined tt
restore-Runs nr (some c) = search (runs_rules, put_inode-Runs, get_inode-Runs)

create_under-Runs :
    (c : Context) (type : ℕ) (name : Bytes) (name_offset : ℕ)
    → Runs mounting (create_under c type name name_offset)
unfolding create_under
create_under-Runs c type name name_offset =
    search (runs_rules, malloc-Runs, cmd_cd-Runs, create_entry-Runs, restore-Runs) depth 14

pub create_file_or_dir-Runs :
    (c : Option Context) (type : ℕ) (name : Option Bytes)
    → Runs mounting (create_file_or_dir c type name)
unfolding create_file_or_dir
create_file_or_dir-Runs c type name = Runs-bind _ _ (Runs-expect undefined name tt) (λ name.
    Runs-if (same_string name slash) _ _ (λ _. Runs-pure _)
      (λ _.
        Runs-option (last_index_of b'/' name) _ _ (create_entry-Runs c type name) (λ name_offset.
          Runs-bind _ _ (Runs-expect undefined c tt) (λ c. create_under-Runs c type name _))))

create_in-Runs : (c : Context) (type : ℕ) (name : Bytes) → Runs mounting (create_in c type name)
unfolding create_in
create_in-Runs c type name = search (runs_rules, create_file_or_dir-Runs)

create_from-Runs : (left i : ℕ) (c : Context) → Runs mounting (create_from left i c)
unfolding create_from
create_from-Runs zero i c = Runs-pure _
create_from-Runs (suc left) i c = Runs-bind _ _ (argument-Runs c i) (λ name.
    Runs-bind _ _ (create_in-Runs c i_file name) (λ made.
      Runs-if (is_neg made.0) _ _ (λ _. Runs-pure _) (λ _. create_from-Runs left (i + 1) made.1)))

pub cmd_create-Runs : (c : Context) → Runs mounting (cmd_create c)
unfolding cmd_create
cmd_create-Runs c = search (runs_rules, printf-Runs, create_from-Runs)

pub cmd_mkdir-Runs : (c : Context) → Runs mounting (cmd_mkdir c)
unfolding cmd_mkdir
cmd_mkdir-Runs c = search (runs_rules, argument-Runs, create_in-Runs)

pub cmd_rm-Runs : (c : Context) → Runs mounting (cmd_rm c)
unfolding cmd_rm
cmd_rm-Runs c =
    Runs-if (not (c.nargs == 2)) _ _ (λ _. Runs-pure _)
      (λ _. Runs-tx tx_rm _ (
        Closes-bind _ _ (argument-Runs c 1) (λ name.
          Closes-bind _ _ (remove_dirent-Runs c.cur_dir name) (λ inode_nr.
            Closes-int inode_nr _ _
              (λ nr. Closes-bind _ _ (get_inode-Runs nr) (λ p.
                Closes-bind _ _ (remove_inode-Runs p) (λ _.
                  Closes-bind _ _ (sync_inode-Runs c.cur_dir)
                    (λ _. Closes-pure _ _ (Closes-commit tx_rm)))))
              (λ e. Closes-pure _ _ (Closes-commit tx_rm))))))
