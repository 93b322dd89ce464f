-- ===== src/Termination/Commands.antt =====
-- testfs.c: the commands other than pwd, lsr and catr end by themselves, and none of them leaves a
-- transaction open or changes the layout of the image.
use klee_testfs.Common.{
  ℕ, zero, suc, ◌+◌, ◌≡◌, Bool, true, false, Option, none, some, List, [], ◌∷◌, ◌++◌, ℤ, pos,
  negsuc, arith,
}
use klee_testfs.Bytes.{Bytes}
use klee_testfs.Machine.{Machine, M, pure, ◌>>=◌, ◌>>◌, printf, text}
use klee_testfs.Machine.Runs.{
  Ends, Runs, mounting, runs_rules, Runs-pure, Runs-fetch, Runs-bind, Runs-int,
}
use klee_testfs.Text.{codes}
use klee_testfs.Dir.Path.{Context}
use klee_testfs.Dir.Listing.{stat_from, cmd_stat}
use klee_testfs.Command.{
  Command, help, cd, pwd, ls, lsr, touch, stat, rm, mkdir, cat, catr, write, owrite, oread, checkfs,
  quit, Entry, print_names, cmd_help, cmd_quit, cmdtable, run, find_command, warn, with_args,
  split_args, handle_command, is_quit, make_symbolic,
}
use klee_testfs.Termination.Disk.{printf-Runs}
use klee_testfs.Termination.Inodes.{get_inode-Runs, put_inode-Runs}
use klee_testfs.Termination.Paths.{argument-Runs, resolve-Runs, cmd_cd-Runs}
use klee_testfs.Termination.Files.{cmd_cat-Runs, cmd_write-Runs, cmd_owrite-Runs, cmd_oread-Runs}
use klee_testfs.Termination.Listing.{cmd_ls-Runs}
use klee_testfs.Termination.Report.{cmd_checkfs-Runs}
use klee_testfs.Termination.Creation.{cmd_create-Runs, cmd_mkdir-Runs, cmd_rm-Runs}

print_names-Runs : (es : List Entry) → Runs mounting (print_names es)
unfolding print_names
print_names-Runs [] = Runs-pure tt
print_names-Runs (e ∷ es) = Runs-bind _ _ (printf-Runs _) (λ _. print_names-Runs es)

cmd_help-Runs : Runs mounting cmd_help
unfolding cmd_help
cmd_help-Runs = search (runs_rules, printf-Runs, print_names-Runs)

cmd_quit-Runs : Runs mounting cmd_quit
unfolding cmd_quit
cmd_quit-Runs = search (runs_rules, printf-Runs)

stat_from-Runs : (left i : ℕ) (c : Context) → Runs mounting (stat_from left i c)
unfolding stat_from
stat_from-Runs zero i c = Runs-pure _
stat_from-Runs (suc left) i c = Runs-bind _ _ (argument-Runs c i) (λ name.
    Runs-bind _ _ (resolve-Runs c name) (λ found.
      Runs-int found.0 _ _
        (λ nr. Runs-bind _ _ (get_inode-Runs nr) (λ p. Runs-bind _ _ (Runs-fetch p) (λ inode.
          Runs-bind _ _ (printf-Runs _)
            (λ _. Runs-bind _ _ (put_inode-Runs p) (λ _. stat_from-Runs left (i + 1) found.1)))))
        (λ e. Runs-pure _)))

cmd_stat-Runs : (c : Context) → Runs mounting (cmd_stat c)
unfolding cmd_stat
cmd_stat-Runs c = search (runs_rules, stat_from-Runs)

-- All but the commands that recur along the tree with no mark on what they have seen, which an image
-- with a cycle in it makes endless.
abbrev pub is_bounded : Command → Bool
is_bounded pwd = false
is_bounded lsr = false
is_bounded catr = false
is_bounded _ = true

pub run-Runs : (e : Command) → is_bounded e ≡ true → (c : Context) → Runs mounting (run e c)
unfolding run
run-Runs help h c = search (runs_rules, cmd_help-Runs)
run-Runs cd h c = cmd_cd-Runs c
run-Runs pwd h c = absurd (ground arith)
run-Runs ls h c = cmd_ls-Runs c
run-Runs lsr h c = absurd (ground arith)
run-Runs touch h c = cmd_create-Runs c
run-Runs stat h c = cmd_stat-Runs c
run-Runs rm h c = search (runs_rules, cmd_rm-Runs)
run-Runs mkdir h c = cmd_mkdir-Runs c
run-Runs cat h c = cmd_cat-Runs c
run-Runs catr h c = absurd (ground arith)
run-Runs write h c = cmd_write-Runs c
run-Runs owrite h c = cmd_owrite-Runs c
run-Runs oread h c = cmd_oread-Runs c
run-Runs checkfs h c = search (runs_rules, cmd_checkfs-Runs)
run-Runs quit h c = search (runs_rules, cmd_quit-Runs)

warn-Runs : (name : Bytes) (z : ℤ) → Runs mounting (warn name z)
unfolding warn
warn-Runs name (pos n) = Runs-pure tt
warn-Runs name (negsuc e) = printf-Runs _

abbrev is_bounded_entry : Option Entry → Bool
is_bounded_entry none = true
is_bounded_entry (some e) = is_bounded e.func

-- A name that is not one of the commands above.
unfoldable pub names_bounded : Bytes → Bool
names_bounded name = is_bounded_entry (find_command name cmdtable)

pub handle_command-Runs :
    (prepare : Context → M Context) (c : Context) (name args : Bytes)
    → ((c : Context) → Runs mounting (prepare c))
    → names_bounded name ≡ true
    → Runs mounting (handle_command prepare c (some name) args)
unfolding handle_command names_bounded
handle_command-Runs prepare c name args hp h = found (find_command name cmdtable) h
  where
    found :
        (o : Option Entry)
        → is_bounded_entry o ≡ true
        → Runs {A = Context × Bool} mounting (elim o [
          | none ↦ do
            printf (text (name ++ codes ": command not found: type ? for help...\n") ∷ [])
            pure (c, false)
          | some e ↦ do
            c ← prepare (with_args c name (split_args e.max_args args))
            (ret, c) ← run e.func c
            warn name ret
            pure (c, is_quit e.func)
        ])
    found none h = search (runs_rules, printf-Runs)
    found (some e) h =
        Runs-bind _ _ (hp _)
          (λ c. Runs-bind _ _ (run-Runs e.func h c) (λ done. search (runs_rules, warn-Runs)))

make_symbolic-Runs :
    (symbolic : Bytes → Bytes) (c : Context) → Runs mounting (make_symbolic symbolic c)
unfolding make_symbolic
make_symbolic-Runs symbolic c = search (runs_rules, argument-Runs) depth 8

-- handle_command with the name of any command but pwd, lsr and catr, or with a name that is not in
-- the table, comes to an end in every state, in both programs: it returns, with the layout of the
-- image and the transaction in progress as they were, or it stops the way the program does, at a
-- failed assertion, EXIT or undefined behaviour, and never because a loop of the model is cut short.
pub handle_command-Ends :
    (symbolic : Bytes → Bytes) (c : Context) (name args : Bytes) (m : Machine)
    → names_bounded name ≡ true
    → Ends mounting m (handle_command pure c (some name) args m)
      × Ends mounting m (handle_command (make_symbolic symbolic) c (some name) args m)
unfolding mounting
handle_command-Ends symbolic c name args m h = (
  (handle_command-Runs pure c name args (λ c. Runs-pure c) h).at m tt,
  (handle_command-Runs (make_symbolic symbolic) c name args (make_symbolic-Runs symbolic) h).at m
      tt,
)
