-- ===== src/Command/Laws.antt =====
-- testfs.c: the arguments of a command line stay inside the array `cmd` of the context.
use klee_testfs.Common.{
  ℕ, zero, suc, ◌+◌, ◌-◌, ◌≤◌, ◌≡◌, refl, ap, Option, none, some, List, [], ◌∷◌, ◌++◌, arith,
  length, length-append, length-replicate, replicate, subst, if◌then◌else◌, Bool, true, false, ◌&&◌,
  leb,
}
use mathlib.Core.List.{map}
use klee_testfs.Bytes.{Bytes}
use klee_testfs.Text.{same_string, strtok, is_blank, is_newline}
use klee_testfs.Dir.Path.{Context}
use klee_testfs.Command.{
  split_words, rest_of_line, split_args, with_args, max_args_limit, Entry, find_command, cmdtable,
}

length-split_words : (left : ℕ) (args : Bytes) → length (split_words left args).0 ≤ left
unfolding split_words
length-split_words zero args = omega arith
length-split_words (suc left) args =
    first (strtok is_blank args) (λ rest. length-split_words left rest)
  where
    first :
        (o : Option (Bytes × Bytes))
        → ((rest : Bytes) → length (split_words left rest).0 ≤ left)
        → length
            (elim o as (λ _. List Bytes × Bytes) [
              | none ↦ ([], [])
              | some (word, rest) ↦
                  let (words, behind) = split_words left rest in (word ∷ words, behind)
            ]).0
          ≤ suc left
    first none few = omega arith
    first (some (word, rest)) few = omega (arith, few rest)

length-rest_of_line :
    (args : Bytes) (s : List Bytes × Bytes) → length (rest_of_line args s) ≤ length s.0 + 1
unfolding rest_of_line
length-rest_of_line args (words, behind) =
    last (strtok is_newline (elim words [ [] ↦ args | _ ∷ _ ↦ behind ]))
  where
    last :
        (o : Option (Bytes × Bytes))
        → length
            (elim o as (λ _. List Bytes) [ none ↦ words | some (line, _) ↦ words ++ line ∷ [] ])
          ≤ length words + 1
    last none = omega arith
    last (some (line, _)) = omega (arith, length-append words (line ∷ []))

length-split_args :
    (max_args : ℕ) (args : Bytes) → length (split_args max_args args) ≤ max_args - 1 + 1
unfolding split_args
length-split_args max_args args = omega (
  arith,
  length-rest_of_line args (split_words (max_args - 1) args),
  length-split_words (max_args - 1) args,
)

-- What the table says of an entry's arguments.
abbrev Fits : Entry → Type 0
Fits e = (1 ≤ e.max_args) × (e.max_args ≤ max_args_limit)

abbrev AllFit : List Entry → Type 0
AllFit [] = Unit {0}
AllFit (e ∷ es) = Fits e × AllFit es

abbrev FitsIf : Option Entry → Type 0
FitsIf none = Unit {0}
FitsIf (some e) = Fits e

either : (b : Bool) (o p : Option Entry) → FitsIf o → FitsIf p → FitsIf (if b then o else p)
either true o p ho hp = ho
either false o p ho hp = hp

find_command-FitsIf : (name : Bytes) (es : List Entry) → AllFit es → FitsIf (find_command name es)
unfolding find_command
find_command-FitsIf name [] h = tt
find_command-FitsIf name (e ∷ es) h =
    either (same_string name e.name) (some e) (find_command name es) h.0
      (find_command-FitsIf name es h.1)

abbrev fits : Entry → Bool
fits e = leb 1 e.max_args && leb e.max_args max_args_limit

abbrev all_fit : List Entry → Bool
all_fit [] = true
all_fit (e ∷ es) = fits e && all_fit es

all_fit-AllFit : (es : List Entry) → all_fit es ≡ true → AllFit es
all_fit-AllFit [] h = tt
all_fit-AllFit (e ∷ es) h = ((ground arith, ground arith), all_fit-AllFit es (ground arith))

length-map : {A B : Type 0} (f : A → B) (xs : List A) → length (map f xs) ≡ length xs
length-map f [] = refl
length-map f (x ∷ xs) = ap suc (length-map f xs)

pub with_args-split_args :
    (c : Context) (name args : Bytes) (e : Entry)
    → find_command name cmdtable ≡ some e
    → (length (with_args c name (split_args e.max_args args)).cmd ≡ 6)
      × ((with_args c name (split_args e.max_args args)).nargs ≤ e.max_args + 1)
unfolding with_args
with_args-split_args c name args e found =
    let (least, most) =
      subst FitsIf found (find_command-FitsIf name cmdtable (all_fit-AllFit cmdtable refl)) in
    let few = length-split_args e.max_args args in (filled, omega (arith, few, least, most))
  where
    filled :
        length (
          some name ∷ map some (split_args e.max_args args)
          ++ replicate (max_args_limit - length (split_args e.max_args args)) none)
        ≡ 6
    filled = omega (
      arith,
      length-append (map some (split_args e.max_args args))
          (replicate (max_args_limit - length (split_args e.max_args args)) none),
      length-map {B = Option Bytes} some (split_args e.max_args args),
      length-replicate {A = Option Bytes} (max_args_limit - length (split_args e.max_args args))
          none,
      length-split_args e.max_args args,
      subst FitsIf found (find_command-FitsIf name cmdtable (all_fit-AllFit cmdtable refl)),
    )
