-- ===== src/Termination/Check.antt =====
-- super.c: checkfs marks an inode in the map that it draws up before it goes on to the entries of a
-- directory, and stops at an inode that is marked already. So it goes no deeper than the map has bits.
use klee_testfs.Common.{
  ℕ, zero, suc, ◌+◌, ◌≤◌, ◌<◌, ◌≡◌, Bool, true, false, not, if◌then◌else◌, Option, none, some,
  arith, length,
}
use klee_testfs.Bitmap.{Bitmap}
use klee_testfs.Bitmap
use klee_testfs.Bitmap.Laws.{IsValid}
use klee_testfs.Machine.{Machine, Outcome, ok, stop, M, Ptr, pure, ◌>>=◌, and_then}
use klee_testfs.Machine.Runs.{Frame, Ends, Ends-bind, after_ok, Runs, runs_rules}
use klee_testfs.Dir.Entry.{Dirent, next_dirent}
use klee_testfs.Dir.Change.{is_child}
use klee_testfs.Super.Check.{Maps, check_children, child_nr}
use klee_testfs.Termination.Next.{Holds, Gives, size_of}
use klee_testfs.Termination.Entries.{Ends-next}
use klee_testfs.Termination.Dirs.{is_child-Runs}
use klee_testfs.Termination.Walk.{below, Walks-kept, Walks, Runs-below}

-- A map of inodes of that size, with at least that many of them in use.
abbrev pub Grown : ℕ → ℕ → Maps → Type 0
Grown nbits used r = IsValid r.0 × (r.0.nbits ≡ nbits) × (used ≤ Bitmap.nr_allocated r.0)

-- What follows a command knows of its result.
pub Ends-bind_given :
    {A B : Type 0} (P : A → Type 0) (f : Frame) (m : Machine) (o : Outcome A) (k : A → M B)
    → Holds P o
    → Ends f m o
    → ((a : A) (n : Machine) → P a → f.keeps m n → Ends f n (k a n))
    → Ends f m (and_then o k)
Ends-bind_given P f m (stop s) k given h hk = h
Ends-bind_given P f m (ok a n) k given h hk = after_ok f h (k a n) (hk a n given h)

pub Gives-then :
    {A B : Type 0} (P : A → Type 0) (Q : B → Type 0) (c : M A) (k : A → M B)
    → Gives P c
    → ((a : A) → P a → Gives Q (k a))
    → Gives Q (c >>= k)
Gives-then {A = A} P Q c k h hk = record { at = λ m. after (c m) (h.at m) }
  where
    after : (o : Outcome A) → Holds P o → Holds Q (and_then o k)
    after (ok a n) given = (hk a given).at n
    after (stop s) given = tt

abbrev pub Anything : {A : Type 0} → A → Type 0
Anything a = Unit {0}

pub anything : {A : Type 0} (c : M A) → Gives Anything c
anything {A} c = record { at = λ m. done (c m) }
  where
    done : (o : Outcome A) → Holds Anything o
    done (ok a n) = tt
    done (stop s) = tt

child_nr-Runs : (k : ℕ) (d : Dirent) → Runs (below k) (child_nr d)
child_nr-Runs k d = search runs_rules

module _ (visit : ℕ → Maps → M Maps) (nbits used : ℕ)
    (hv : (nr : ℕ) (maps : Maps)
      → Grown nbits used maps
      → Gives (Grown nbits used) (visit nr maps)) where
  -- What is done at an entry, before the rest of the loop.
  abbrev at_entry : Maps → Dirent → (Maps → M Maps) → M Maps
  at_entry maps d rest = do
    child ← is_child d
    if not child then rest maps else do nr ← child_nr d; maps ← visit nr maps; rest maps

  at_entry-Gives :
      (maps : Maps) (d : Dirent) (rest : Maps → M Maps)
      → Grown nbits used maps
      → ((maps : Maps) → Grown nbits used maps → Gives (Grown nbits used) (rest maps))
      → Gives (Grown nbits used) (at_entry maps d rest)
  at_entry-Gives maps d rest g hr =
      Gives-then Anything (Grown nbits used) (is_child d) _ (anything _) (λ child _. by_child child)
    where
      by_child :
          (child : Bool)
          → Gives (Grown nbits used) (
              if not child
              then rest maps
              else (do nr ← child_nr d; maps ← visit nr maps; rest maps))
      by_child false = hr maps g
      by_child true = Gives-then Anything (Grown nbits used) (child_nr d) _ (anything _) (λ nr _.
          Gives-then (Grown nbits used) (Grown nbits used) (visit nr maps) rest (hv nr maps g) hr)

  -- The maps that the loop hands back have the bits that it was given.
  pub check_children-Gives :
      (fuel : ℕ) (p : Ptr) (offset : ℕ) (maps : Maps)
      → Grown nbits used maps
      → Gives (Grown nbits used) (check_children visit fuel p offset maps)
  unfolding check_children
  check_children-Gives zero p offset maps g = record { at = λ m. tt }
  check_children-Gives (suc fuel) p offset maps g =
      Gives-then Anything (Grown nbits used) (next_dirent p offset) _ (anything _)
        (λ r _. entry r.0 r.1 (λ next maps g. check_children-Gives fuel p next maps g))
    where
      entry :
          (o : Option Dirent) (next : ℕ)
          → ((next : ℕ) (maps : Maps)
              → Grown nbits used maps
              → Gives (Grown nbits used) (check_children visit fuel p next maps))
          → Gives (Grown nbits used) (elim o [
            | none ↦ pure maps
            | some d ↦ at_entry maps d (check_children visit fuel p next)
          ])
      entry none next rec = record { at = λ m. g }
      entry (some d) next rec =
          at_entry-Gives maps d (check_children visit fuel p next) g (rec next)

  module _ (k : ℕ)
      (runs : (nr : ℕ) (maps : Maps) → Grown nbits used maps → Runs (below k) (visit nr maps)) where
    at_entry-Ends :
        (maps : Maps) (d : Dirent) (rest : Maps → M Maps) (m : Machine)
        → Grown nbits used maps
        → k ≤ length m.heap
        → ((maps : Maps) (n : Machine)
            → Grown nbits used maps
            → Walks k m n
            → Ends (below k) n (rest maps n))
        → Ends (below k) m (at_entry maps d rest m)
    unfolding below
    at_entry-Ends maps d rest m g held hr =
        Ends-bind (below k) (below k) m (is_child d m) _ (λ o t. t)
          ((Runs-below k _ (is_child-Runs d)).at m held) (λ child n s. by_child child n s)
      where
        visited :
            (n : Machine)
            → Walks k m n
            → Ends (below k) n ((do nr ← child_nr d; maps ← visit nr maps; rest maps) n)
        visited n s =
            Ends-bind (below k) (below k) n (child_nr d n) _ (λ o t. t)
              ((child_nr-Runs k d).at n ((below k).kept s held))
              (λ nr o t.
                let st = (below k).join s t in
                Ends-bind_given (Grown nbits used) (below k) o (visit nr maps o) rest
                  ((hv nr maps g).at o) ((runs nr maps g).at o ((below k).kept st held))
                  (λ maps' q g' u. hr maps' q g' ((below k).join st u)))

        by_child :
            (child : Bool) (n : Machine)
            → Walks k m n
            → Ends (below k) n (
                (if not child
                    then rest maps
                    else (do nr ← child_nr d; maps ← visit nr maps; rest maps))
                  n)
        by_child false n s = hr maps n g s
        by_child true n s = visited n s

    pub check_children-Ends :
        (fuel : ℕ) (p : Ptr) (offset : ℕ) (maps : Maps) (m : Machine)
        → Grown nbits used maps
        → p < k
        → k ≤ length m.heap
        → size_of m p < offset + fuel
        → 0 < fuel
        → Ends (below k) m (check_children visit fuel p offset maps m)
    unfolding check_children below
    check_children-Ends zero p offset maps m g inside held h hf = absurd (omega arith)
    check_children-Ends (suc fuel) p offset maps m g inside held h hf =
        Ends-next (below k) m p offset _ (λ n s. Walks-kept k s) (λ next n s. (below k).stay n)
          (λ d next n s before ahead.
            let there = (below k).kept (Walks-kept k s) held in
            let fewer = (Walks-kept k s).heap.smaller p inside in
            at_entry-Ends maps d (check_children visit fuel p next) n g there (λ maps' o g' t.
              check_children-Ends fuel p next maps' o g' inside ((below k).kept t there)
                (omega (arith, t.heap.smaller p inside)) (omega arith)))
