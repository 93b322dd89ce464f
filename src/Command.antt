-- ===== src/Command.antt =====
-- testfs.c and testfs_single_argument.c: a command line split into arguments and run, and the two
-- programs around it. getopt finds no option, so the arguments stand where they are given.
pub mod Laws
use klee_testfs.Common.{
  ℕ, zero, suc, ◌+◌, ◌-◌, Bool, true, false, not, ◌||◌, Option, none, some, List, [], ◌∷◌, ◌++◌, ℤ,
  pos, negsuc, is_zero, length, set, replicate, ltb, leb, ◌==◌, if◌then◌else◌,
}
use mathlib.Core.List.{map}
use klee_testfs.Bytes.{Bytes}
use klee_testfs.Machine.{
  Ptr, M, undefined, exited, pure, ◌>>=◌, ◌>>◌, abort, expect, printf, text, number, strerror,
}
use klee_testfs.Text.{c_string, same_string, codes, strtok, is_blank, is_newline}
use klee_testfs.Super.Mount.{init_super_block, close_super_block}
use klee_testfs.Super.Check.{cmd_checkfs}
use klee_testfs.Inode.Cache.{get_inode, put_inode}
use klee_testfs.Dir.Path.{Context, argument, cmd_cd}
use klee_testfs.Dir.Create.{cmd_create, cmd_mkdir, cmd_rm}
use klee_testfs.Dir.Listing.{cmd_pwd, cmd_ls, cmd_lsr, cmd_stat}
use klee_testfs.File.{cmd_cat, cmd_write, cmd_owrite, cmd_oread}
use klee_testfs.File.Catr.{cmd_catr}

-- The functions of cmdtable.
pub data Command : Type 0 where
  help cd pwd ls lsr touch stat rm mkdir cat catr write owrite oread checkfs quit : Command

pub record Entry : Type 0 where
  pub name : Bytes
  pub func : Command
  pub max_args : ℕ

abbrev pub max_args_limit : ℕ
max_args_limit = 5

abbrev entry : Bytes → Command → ℕ → Entry
entry name func max_args = record { name = name; func = func; max_args = max_args }

abbrev pub cmdtable : List Entry
cmdtable =
    entry (codes "?") help 1
    ∷ entry (codes "cd") cd 2
    ∷ entry (codes "pwd") pwd 1
    ∷ entry (codes "ls") ls 2
    ∷ entry (codes "lsr") lsr 2
    ∷ entry (codes "touch") touch max_args_limit
    ∷ entry (codes "stat") stat max_args_limit
    ∷ entry (codes "rm") rm 2
    ∷ entry (codes "mkdir") mkdir 2
    ∷ entry (codes "cat") cat max_args_limit
    ∷ entry (codes "catr") catr 2
    ∷ entry (codes "write") write 2
    ∷ entry (codes "owrite") owrite 3
    ∷ entry (codes "oread") oread 3
    ∷ entry (codes "checkfs") checkfs 1
    ∷ entry (codes "quit") quit 1
    ∷ []

unfoldable pub print_names : List Entry → M (Unit {0})
print_names [] = pure tt
print_names (e ∷ es) = do printf (text (e.name ++ codes "\n") ∷ []); print_names es

unfoldable pub cmd_help : M ℤ
cmd_help = do printf (text (codes "Commands:\n") ∷ []); print_names cmdtable; pure (pos 0)

-- The flag can_quit is what handle_command returns.
unfoldable pub cmd_quit : M ℤ
cmd_quit = do printf (text (codes "Bye!\n") ∷ []); pure (pos 0)

-- A command that does not change the context.
abbrev pub keep_context : Context → M ℤ → M (ℤ × Context)
keep_context c command = do ret ← command; pure (ret, c)

-- cmdtable[i].func(sb, c)
unfoldable pub run : Command → Context → M (ℤ × Context)
run help c = keep_context c cmd_help
run cd c = cmd_cd c
run pwd c = keep_context c (cmd_pwd c)
run ls c = cmd_ls c
run lsr c = cmd_lsr c
run touch c = cmd_create c
run stat c = cmd_stat c
run rm c = keep_context c (cmd_rm c)
run mkdir c = cmd_mkdir c
run cat c = cmd_cat c
run catr c = cmd_catr c
run write c = cmd_write c
run owrite c = cmd_owrite c
run oread c = cmd_oread c
run checkfs c = keep_context c (cmd_checkfs c)
run quit c = keep_context c cmd_quit

abbrev pub is_quit : Command → Bool
is_quit quit = true
is_quit _ = false

unfoldable pub find_command : Bytes → List Entry → Option Entry
find_command name [] = none
find_command name (e ∷ es) =
    let rest = find_command name es in if same_string name e.name then some e else rest

-- The first `left` words, and what strtok has left behind them.
unfoldable pub split_words : ℕ → Bytes → List Bytes × Bytes
split_words zero args = ([], args)
split_words (suc left) args = elim (strtok is_blank args) [
  | none ↦ ([], [])
  | some (word, rest) ↦ let (words, behind) = split_words left rest in (word ∷ words, behind)
]

-- The rest of the line as one argument. Where there was no word, strtok starts from `args` again.
unfoldable pub rest_of_line : Bytes → List Bytes × Bytes → List Bytes
rest_of_line args (words, behind) =
    elim (strtok is_newline (elim words [ [] ↦ args | _ ∷ _ ↦ behind ])) [
      | none ↦ words
      | some (line, _) ↦ words ++ line ∷ []
    ]

-- The arguments of a command that takes `max_args` with its name. A NULL `args` is the empty string.
unfoldable pub split_args : ℕ → Bytes → List Bytes
split_args max_args args = rest_of_line args (split_words (max_args - 1) args)

-- c->cmd and c->nargs
unfoldable pub with_args : Context → Bytes → List Bytes → Context
with_args c name args = record c {
  nargs = 1 + length args;
  cmd = some name ∷ map some args ++ replicate (max_args_limit - length args) none;
}

-- WARN(c->cmd[0]), where the result is negative.
unfoldable pub warn : Bytes → ℤ → M (Unit {0})
warn name (pos n) = pure tt
warn name (negsuc e) = printf (
    text (codes "handle_command: " ++ name ++ codes ": ")
    ∷ strerror (e + 1)
    ∷ text (codes "\n")
    ∷ [])

-- handle_command, and whether can_quit is set. testfs.c does `prepare` before it runs the command.
unfoldable pub handle_command :
    (Context → M Context) → Context → Option Bytes → Bytes → M (Context × Bool)
handle_command prepare c none args = pure (c, false)
handle_command prepare c (some name) args = elim (find_command name cmdtable) [
  | none ↦ do
    printf (text (name ++ codes ": command not found: type ? for help...\n") ∷ [])
    pure (c, false)
  | some e ↦ do
    c ← prepare (with_args c name (split_args e.max_args args))
    (ret, c) ← run e.func c
    warn name ret
    pure (c, is_quit e.func)
]

-- klee_make_symbolic_range(c->cmd[1], 0, strlen(c->cmd[1]), "arg"): the bytes that the tool puts for
-- those of the argument are `symbolic` of them; the string ends at the first zero among them.
unfoldable pub make_symbolic : (Bytes → Bytes) → Context → M Context
make_symbolic symbolic c = do
  arg ← argument c 1
  if length arg == 0 then pure c else do
    s ← expect undefined (c_string (symbolic arg ++ 0 ∷ []))
    pure (record c { cmd = set c.cmd 1 (some s) })

-- The context at the root, once the image is mounted.
unfoldable pub start : M Context
start = do
  ret ← init_super_block
  if not (is_zero ret)
      then abort exited
      else do root ← get_inode 0; pure (record { nargs = 0; cmd = []; cur_dir = root })

unfoldable pub finish : Context → M ℤ
finish c = do put_inode c.cur_dir; close_super_block; pure (pos 0)

-- The loop of testfs.c over the parameters from `param_no` on: each is appended and followed by a
-- blank, and line[1000] must have room for it.
unfoldable pub build_line : ℕ → Bytes → List Bytes → M Bytes
build_line param_no line [] = pure line
build_line param_no line (arg ∷ args) = do
  printf (text (codes "param = ") ∷ number (pos param_no) ∷ text (codes "\n") ∷ [])
  printf (text (codes "offset = ") ∷ number (pos (length line)) ∷ text (codes "\n") ∷ [])
  printf (text (codes "argument being copied = " ++ arg ++ codes "\n") ∷ [])
  if leb 999 (length (line ++ arg)) then abort undefined else do
    printf (text (codes "line = " ++ line ++ arg ++ codes "\n") ∷ [])
    printf (
        text (codes "new line length = ")
        ∷ number (pos (length (line ++ arg)))
        ∷ text (codes "\n")
        ∷ [])
    printf (
        text (codes "new offset = ")
        ∷ number (pos (length (line ++ arg) + 1))
        ∷ text (codes "\n")
        ∷ [])
    build_line (param_no + 1) ((line ++ arg) ++ 32 ∷ []) args

-- line[offset - 1] = '\0' takes the last blank off.
unfoldable pub drop_last : Bytes → Bytes
drop_last [] = []
drop_last (b ∷ []) = []
drop_last (b ∷ d ∷ bs) = b ∷ drop_last (d ∷ bs)

-- name = strtok(line, " \t\n") and args1 = strtok(NULL, "\n")
unfoldable pub command_of : Bytes → Option Bytes × Bytes
command_of line = elim (strtok is_blank line) [
  | none ↦ (none, [])
  | some (name, rest) ↦
      (some name, elim (strtok is_newline rest) [ none ↦ [] | some (args, _) ↦ args ])
]

-- main of testfs.c, with the arguments behind the program's name. The image is /tmp/file.
unfoldable pub testfs : (Bytes → Bytes) → List Bytes → M ℤ
testfs symbolic args = if length args == 0 then abort exited else do
  c ← start
  printf (text (codes "argc = ") ∷ number (pos (1 + length args)) ∷ text (codes "\n") ∷ [])
  line ← build_line 1 [] args
  printf (text (codes "line  = " ++ drop_last line ++ codes "\n") ∷ [])
  printf (text (codes "command: " ++ drop_last line ++ codes "\n") ∷ [])
  let (name, args1) = command_of (drop_last line)
  (c, _) ← handle_command (make_symbolic symbolic) c name args1
  finish c

-- The loop of testfs_single_argument.c over the parameters.
unfoldable pub join_args : List Bytes → Bytes
join_args [] = []
join_args (arg ∷ args) = arg ++ 32 ∷ join_args args

-- main of testfs_single_argument.c: the image, the command and its arguments. They are copied to
-- name[50] and arguments[1000].
unfoldable pub testfs_single_argument : List Bytes → M ℤ
testfs_single_argument (disk ∷ name ∷ args) = do
  c ← start
  if leb 50 (length name) || leb 1000 (length (join_args args)) then abort undefined else do
    (c, can_quit) ← handle_command pure c (some name) (join_args args)
    if can_quit then pure (pos 1) else finish c
testfs_single_argument _ = abort exited
