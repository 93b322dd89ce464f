-- ===== src/Termination/Report.antt =====
-- super.c: the command checkfs ends, since its map of inodes begins with no bit in use.
use klee_testfs.Common.{
  ℕ, ◌+◌, ◌<◌, ◌≡◌, sym, subst, ◌^◌, ◌*◌, Bool, true, false, not, ◌==◌, if◌then◌else◌, Option, none,
  some, ℤ, arith, minus,
}
use klee_testfs.Bitmap.{Bitmap}
use klee_testfs.Bitmap
use klee_testfs.Bitmap.Laws.{IsValid}
use klee_testfs.Bitmap.Create.{create_lem}
use klee_testfs.Machine.{M, pure, expect, assertion, ◌>>=◌, enomem}
use klee_testfs.Machine.Runs.{
  Runs, mounting, reading, runs_rules, Runs-bind, Runs-pure, Runs-printf, Runs-malloc, Runs-if,
}
use klee_testfs.Super.Mount.{bitmap_create}
use klee_testfs.Super.Check.{Maps, checkfs}
use klee_testfs.Termination.Next.{Gives, size}
use klee_testfs.Termination.Walk.{below}
use klee_testfs.Termination.Check.{Gives-then, Anything, anything}
use klee_testfs.Termination.Listing.{Ends-mounting}
use klee_testfs.Termination.Checkfs.{checkfs-Runs, Runs-given}
use klee_testfs.Dir.Path.{Context}
use klee_testfs.Super.Check.{complain, report, cmd_checkfs}
use klee_testfs.Bytes.{Bytes}
use klee_testfs.Machine.{malloc, block_size, block_freemap_size}
use klee_testfs.Machine.Runs.{Runs-option, Runs-mounting}
use klee_testfs.Bitmap.{bits_per_word}
use klee_testfs.Super.Mount.{bitmap_create}

-- Of a map that bitmap_create made.
abbrev Fresh : ℕ → Option Bitmap → Type 0
Fresh nbits none = Unit {0}
Fresh nbits (some b) = IsValid b × (b.nbits ≡ nbits)

bitmap_create-Gives : (nbits : ℕ) → nbits + 7 < 2 ^ 32 → Gives (Fresh nbits) (bitmap_create nbits)
unfolding bitmap_create
bitmap_create-Gives nbits small =
    Gives-then Anything (Fresh nbits) malloc _ (anything _) (λ first _. granted first)
  where
    made : Gives (Fresh nbits) (do b ← expect assertion (Bitmap.create nbits); pure (some b))
    made =
        let (b, same, size, valid, _) = create_lem nbits small in
        subst (λ o. Gives (Fresh nbits) (do b ← expect assertion o; pure (some b))) (sym same)
          (record { at = λ m. (valid, size) })

    again :
        (second : Bool)
        → Gives (Fresh nbits) (
            if not second
            then pure none
            else (do b ← expect assertion (Bitmap.create nbits); pure (some b)))
    again false = record { at = λ m. tt }
    again true = made

    granted :
        (first : Bool)
        → Gives (Fresh nbits) (
            if not first then pure none else (do
              second ← malloc
              if not second
                  then pure none
                  else do b ← expect assertion (Bitmap.create nbits); pure (some b)))
    granted false = record { at = λ m. tt }
    granted true =
        Gives-then Anything (Fresh nbits) malloc _ (anything _) (λ second _. again second)

bitmap_create-Runs : (nbits : ℕ) → Runs mounting (bitmap_create nbits)
unfolding bitmap_create
bitmap_create-Runs nbits = Runs-mounting _ (search (runs_rules, Runs-malloc) depth 10)

complain-Runs : (b : Bool) (message : Bytes) → Runs reading (complain b message)
complain-Runs true message = Runs-pure tt
complain-Runs false message = Runs-printf _

report-Runs : (maps : Maps) → Runs reading (report maps)
unfolding report
report-Runs maps = search (runs_rules, Runs-printf, complain-Runs) depth 14

walked : {A : Type 0} (c : M A) → Runs (below 0) c → Runs mounting c
unfolding below mounting
walked c h = record { at = λ m held. Ends-mounting 0 m (c m) (h.at m (omega arith)) }

pub cmd_checkfs-Runs : (c : Context) → Runs mounting (cmd_checkfs c)
unfolding cmd_checkfs
cmd_checkfs-Runs c =
    Runs-if (not (c.nargs == 1)) _ _ (λ _. Runs-pure _)
      (λ _.
        Runs-given (Fresh 512) mounting (bitmap_create 512) _
          (bitmap_create-Gives 512 (omega arith)) (bitmap_create-Runs 512)
          (λ o fresh. inodes o fresh))
  where
    visit : Bitmap → Bitmap → M ℤ
    visit a b = do maps ← checkfs 513 0 (a, b); report maps

    inodes :
        (o : Option Bitmap)
        → Fresh 512 o
        → Runs {A = ℤ} mounting (elim o [
          | none ↦ pure (minus enomem)
          | some a ↦ do
            created ← bitmap_create (block_size * block_freemap_size * bits_per_word)
            elim created [ none ↦ pure (minus enomem) | some b ↦ visit a b ]
        ])
    inodes none fresh = Runs-pure _
    inodes (some a) fresh = Runs-bind _ _ (bitmap_create-Runs _) (λ created.
        Runs-option created _ _ (Runs-pure _) (λ b.
          Runs-bind _ _
            (walked _
              (checkfs-Runs 513 0 (a, b) 512 0 0 (fresh.0, fresh.1, omega arith) (omega arith)))
            (λ maps. Runs-mounting _ (report-Runs maps))))
