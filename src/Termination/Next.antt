-- ===== src/Termination/Next.antt =====
-- dir.c: one directory entry read. The call goes on by at least one byte, and no entry begins behind
-- the size of the directory.
use klee_testfs.Common.{
  ℕ, ◌+◌, ◌*◌, ◌/◌, ◌<◌, ◌≤◌, ◌≡◌, refl, Bool, true, false, if◌then◌else◌, Option, none, some, ℤ,
  pos, negsuc, le_int, ◌==◌, arith, get_elem?,
}
use klee_testfs.Bytes.{Bytes}
use klee_testfs.Machine.{
  Machine, Outcome, ok, stop, Stop, M, Inode, Ptr, pure, abort, assert, expect, fetch, live,
  undefined, ◌>>=◌, ◌>>◌, and_then, block_size, i_dir,
}
use klee_testfs.Machine.Runs.{Runs, reading, runs_rules, Runs-malloc}
use klee_testfs.Dir.Entry.{
  Dirent, dirent_size, align, read_name, read_header, next_dirent, has_name, is_entry,
}
use klee_testfs.Termination.Reads.{read_data-Runs}

-- A result, if there is one, that satisfies `P`.
abbrev pub Holds : {A : Type 0} → (A → Type 0) → Outcome A → Type 0
Holds P (ok a n) = P a
Holds P (stop s) = Unit {0}

pub record Gives {A : Type 0} (P : A → Type 0) (c : M A) : Type 0 where
  pub at : (m : Machine) → Holds P (c m)

module _ {A : Type 0} {P : A → Type 0} where
  Gives-pure : (a : A) → P a → Gives P (pure a)
  Gives-pure a h = record { at = λ m. h }

  Gives-abort : (s : Stop) → Gives P (abort s)
  Gives-abort s = record { at = λ m. tt }

  Gives-if : (b : Bool) (c d : M A) → Gives P c → Gives P d → Gives P (if b then c else d)
  Gives-if true c d hc hd = hc
  Gives-if false c d hc hd = hd

  Gives-bind : {B : Type 0} (c : M B) (k : B → M A) → ((b : B) → Gives P (k b)) → Gives P (c >>= k)
  Gives-bind {B = B} c k h = record { at = λ m. after (c m) }
    where
      after : (o : Outcome B) → Holds P (and_then o k)
      after (ok b n) = (h b).at n
      after (stop s) = tt

ruleset gives_rules = (Gives-pure, Gives-abort, Gives-if, Gives-bind)

-- The entry, if there is one, ends behind `offset`.
abbrev pub IsAhead : ℕ → Option Dirent × ℕ → Type 0
IsAhead offset (none, next) = Unit {0}
IsAhead offset (some d, next) = offset < next

name_ahead : (base offset len : ℕ) → base ≤ offset → base < offset + dirent_size + len
name_ahead base offset len h = omega arith

read_name-IsAhead :
    (base : ℕ) (dir : Ptr) (offset : ℕ) (len nr : ℤ)
    → base ≤ offset
    → Gives (IsAhead base) (read_name dir offset len nr)
unfolding read_name
read_name-IsAhead base dir offset (negsuc n) nr h = search gives_rules depth 10
read_name-IsAhead base dir offset (pos n) nr h = search (gives_rules, name_ahead) depth 10

block_ahead : (base offset : ℕ) → base ≤ offset → base ≤ (offset / block_size + 1) * block_size
block_ahead base offset h = ground arith

read_header-IsAhead :
    (base : ℕ) (dir : Ptr) (offset : ℕ) (header : Bytes)
    → base ≤ offset
    → Gives (IsAhead base) (read_header dir offset header)
unfolding read_header
read_header-IsAhead base dir offset header h =
    search (gives_rules, read_name-IsAhead, block_ahead) depth 10

align_ahead : (offset : ℕ) → offset ≤ align offset
unfolding align
align_ahead offset = ground arith

pub next_dirent-IsAhead : (dir : Ptr) (offset : ℕ) → Gives (IsAhead offset) (next_dirent dir offset)
unfolding next_dirent
next_dirent-IsAhead dir offset = search (gives_rules, read_header-IsAhead, align_ahead) depth 10

-- The bytes of a directory, and those of the one at an address.
abbrev pub size : Inode → ℕ
size i = elim i.din.i_size [ pos n ↦ n | negsuc n ↦ 0 ]

abbrev pub size_in : Option Inode → ℕ
size_in none = 0
size_in (some i) = size i

abbrev pub size_of : Machine → Ptr → ℕ
size_of m dir = size_in (live (get_elem? m.heap dir))

-- An entry, if there is one, begins before the size.
abbrev pub IsInside : ℕ → ℕ → Option Dirent × ℕ → Type 0
IsInside n offset (none, next) = Unit {0}
IsInside n offset (some d, next) = offset < n

past_size :
    (z : ℤ) (offset : ℕ)
    → le_int z (pos offset) ≡ false
    → offset < elim z [ pos n ↦ n | negsuc n ↦ 0 ]
past_size (pos n) offset h = ground arith
past_size (negsuc n) offset h = ground arith

any_entry :
    (n offset : ℕ) → offset < n → (o : Outcome (Option Dirent × ℕ)) → Holds (IsInside n offset) o
any_entry n offset h (ok (none, next) m) = tt
any_entry n offset h (ok (some d, next) m) = h
any_entry n offset h (stop s) = tt

entry_or_end :
    (m : Machine) (offset : ℕ) (i : Inode) (rest : M (Option Dirent × ℕ)) (b : Bool)
    → (b ≡ false → offset < size i)
    → Holds (IsInside (size i) offset) ((if b then pure (none, offset) else rest) m)
entry_or_end m offset i rest true h = tt
entry_or_end m offset i rest false h = any_entry (size i) offset (h refl) (rest m)

-- The directory that is read has the size that is compared.
opened :
    {A : Type 0} (m : Machine) (P : ℕ → A → Type 0) (o : Option Inode) (is_dir : Inode → Bool)
    (k : Inode → M A)
    → ((i : Inode) → Holds (P (size i)) (k i m))
    → Holds
        (P (size_in o))
        (and_then (and_then (expect undefined o m) (λ i. assert (is_dir i) >> pure i)) k)
opened m P none is_dir k h = tt
opened m P (some i) is_dir k h = asserted (is_dir i)
  where
    asserted : (b : Bool) → Holds (P (size i)) (and_then (and_then (assert b m) (λ _. pure i)) k)
    asserted true = h i
    asserted false = tt

pub next_dirent-IsInside :
    (m : Machine) (dir : Ptr) (offset : ℕ)
    → Holds (IsInside (size_of m dir) offset) (next_dirent dir offset m)
unfolding next_dirent fetch
next_dirent-IsInside m dir offset =
    opened m (λ n. IsInside n offset) (live (get_elem? m.heap dir)) (λ i. i.din.i_type == i_dir) _
      (λ i.
        entry_or_end m offset i _ (le_int i.din.i_size (pos offset))
          (past_size i.din.i_size offset))

read_name-Runs : (dir : Ptr) (offset : ℕ) (len nr : ℤ) → Runs reading (read_name dir offset len nr)
unfolding read_name
read_name-Runs dir offset (negsuc n) nr = search (runs_rules, Runs-malloc) depth 10
read_name-Runs dir offset (pos n) nr = search (runs_rules, Runs-malloc, read_data-Runs) depth 10

read_header-Runs :
    (dir : Ptr) (offset : ℕ) (header : Bytes) → Runs reading (read_header dir offset header)
unfolding read_header
read_header-Runs dir offset header = search (runs_rules, read_data-Runs, read_name-Runs) depth 10

pub next_dirent-Runs : (dir : Ptr) (offset : ℕ) → Runs reading (next_dirent dir offset)
unfolding next_dirent
next_dirent-Runs dir offset = search (runs_rules, read_data-Runs, read_header-Runs) depth 12

pub has_name-Runs : (d : Dirent) (name : Bytes) → Runs reading (has_name d name)
unfolding has_name
has_name-Runs d name = search runs_rules

pub is_entry-Runs : (d : Dirent) (name : Bytes) → Runs reading (is_entry d name)
unfolding is_entry
is_entry-Runs d name = search (runs_rules, has_name-Runs)
