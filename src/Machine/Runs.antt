-- ===== src/Machine/Runs.antt =====
-- Commands that never run out of fuel, and what they leave as it was: one rule for each way to build
-- a command.
use klee_testfs.Common.{
  ◌≡◌, refl, ap, ◌∙◌, Bool, true, false, if◌then◌else◌, Option, none, some, ℤ, pos, negsuc, ℕ, List,
  [], ◌∷◌, get_elem?,
}
use klee_testfs.Machine.{
  Machine, SuperBlock, Ptr, Stop, undefined, out_of_fuel, Outcome, ok, stop, M, pure, and_then,
  ◌>>=◌, abort, get, assert, expect, malloc, printf, Output, fetch, live,
}

-- What a command may change, as a relation of the states before and after, and what it may count on
-- in every state.
pub record Frame : Type 1 where
  pub holds : Machine → Type 0
  pub keeps : Machine → Machine → Type 0
  pub stay : (m : Machine) → keeps m m
  pub join : {m n o : Machine} → keeps m n → keeps n o → keeps m o
  pub kept : {m n : Machine} → keeps m n → holds m → holds n

-- Every stop of the program itself.
abbrev pub IsReal : Stop → Type 0
IsReal out_of_fuel = ⊥
IsReal _ = Unit {0}

abbrev pub Ends : {A : Type 0} → Frame → Machine → Outcome A → Type 0
Ends f m (ok a n) = f.keeps m n
Ends f m (stop s) = IsReal s

-- From every state of the frame, the command returns within the frame or stops as the program does.
pub record Runs {A : Type 0} (f : Frame) (c : M A) : Type 0 where
  pub at : (m : Machine) → f.holds m → Ends f m (c m)

pub after_ok :
    {B : Type 0} (f : Frame) {m n : Machine}
    → f.keeps m n
    → (o : Outcome B) → Ends f n o
    → Ends f m o
after_ok f h (ok b o) h' = f.join h h'
after_ok f h (stop s) h' = h'

-- The first command within one frame, what follows within a wider one.
pub Ends-bind :
    {A B : Type 0} (f g : Frame) (m : Machine) (o : Outcome A) (k : A → M B)
    → ((n : Machine) → f.keeps m n → g.keeps m n)
    → Ends f m o
    → ((a : A) (n : Machine) → f.keeps m n → Ends g n (k a n))
    → Ends g m (and_then o k)
Ends-bind f g m (stop s) k wider h hk = h
Ends-bind f g m (ok a n) k wider h hk = after_ok g (wider n h) (k a n) (hk a n h)

module _ {f : Frame} where
  pub Runs-pure : {A : Type 0} (a : A) → Runs f (pure a)
  Runs-pure a = record { at = λ m _. f.stay m }

  pub Runs-get : Runs f get
  Runs-get = record { at = λ m _. f.stay m }

  pub Runs-abort : {A : Type 0} (s : Stop) → IsReal s → Runs f (abort {A = A} s)
  Runs-abort s h = record { at = λ m _. h }

  pub Runs-assert : (b : Bool) → Runs f (assert b)
  Runs-assert true = record { at = λ m _. f.stay m }
  Runs-assert false = record { at = λ m _. tt }

  pub Runs-expect : {A : Type 0} (s : Stop) (o : Option A) → IsReal s → Runs f (expect s o)
  Runs-expect s none h = record { at = λ m _. h }
  Runs-expect s (some a) h = record { at = λ m _. f.stay m }

  pub Runs-if :
      {A : Type 0} (b : Bool) (c d : M A)
      → (b ≡ true → Runs f c)
      → (b ≡ false → Runs f d)
      → Runs f (if b then c else d)
  Runs-if true c d hc hd = hc refl
  Runs-if false c d hc hd = hd refl

  pub Runs-option :
      {A B : Type 0} (o : Option A) (c : M B) (k : A → M B)
      → Runs f c
      → ((a : A) → Runs f (k a))
      → Runs f (elim o [ none ↦ c | some a ↦ k a ])
  Runs-option none c k hc hk = hc
  Runs-option (some a) c k hc hk = hk a

  pub Runs-int :
      {B : Type 0} (z : ℤ) (c d : ℕ → M B)
      → ((n : ℕ) → Runs f (c n))
      → ((n : ℕ) → Runs f (d n))
      → Runs f (elim z [ pos n ↦ c n | negsuc n ↦ d n ])
  Runs-int (pos n) c d hc hd = hc n
  Runs-int (negsuc n) c d hc hd = hd n

  pub Runs-bind :
      {A B : Type 0} (c : M A) (k : A → M B)
      → Runs f c
      → ((a : A) → Runs f (k a))
      → Runs f (c >>= k)
  Runs-bind c k hc hk = record {
    at = λ m h. Ends-bind f f m (c m) k (λ n s. s) (hc.at m h) (λ a n s. (hk a).at n (f.kept s h));
  }

  pub Runs-fetch : (p : Ptr) → Runs f (fetch p)
  unfolding fetch
  Runs-fetch p = record {
    at = λ m h. (Runs-expect undefined (live (get_elem? m.heap p)) tt).at m h;
  }

-- A wider frame.
pub Runs-weaken :
    {A : Type 0} (f g : Frame) (c : M A)
    → ((m : Machine) → g.holds m → f.holds m)
    → ((m n : Machine) → f.keeps m n → g.keeps m n)
    → Runs f c
    → Runs g c
Runs-weaken {A = A} f g c holds wider h = record {
  at = λ m held. weaken m (c m) (h.at m (holds m held));
}
  where
    weaken : (m : Machine) (o : Outcome A) → Ends f m o → Ends g m o
    weaken m (ok a n) k = wider m n k
    weaken m (stop s) k = k

pub ruleset runs_rules = (
  Runs-pure, Runs-get, Runs-abort, Runs-assert, Runs-expect, Runs-if, Runs-option, Runs-int,
  Runs-bind, Runs-fetch,
)

-- The frame after `m` was read.
unfoldable pub since : Frame → Machine → Frame
since f m = record {
  holds = λ n. f.keeps m n × f.holds n;
  keeps = f.keeps;
  stay = f.stay;
  join = f.join;
  kept = λ s h. (f.join h.0 s, f.kept s h.1);
}

pub Runs-since : {A : Type 0} (f : Frame) (m : Machine) (c : M A) → Runs f c → Runs (since f m) c
unfolding since
Runs-since f m c h = Runs-weaken f (since f m) c (λ n held. held.1) (λ n o k. k) h

pub Runs-with :
    {A : Type 0} (f : Frame) (k : Machine → M A)
    → ((m : Machine) → Runs (since f m) (k m))
    → Runs f (get >>= k)
unfolding since
Runs-with {A = A} f k h = record { at = λ m held. weaken m (k m m) ((h m).at m (f.stay m, held)) }
  where
    weaken : (m : Machine) (o : Outcome A) → Ends (since f m) m o → Ends f m o
    weaken m (ok a n) k = k
    weaken m (stop s) k = k

-- A command that only reads: the image, the superblock, the inodes and the hash table stay.
pub record SameFiles (m n : Machine) : Type 0 where
  pub blocks : n.dev.blocks ≡ m.dev.blocks
  pub sb : n.sb ≡ m.sb
  pub heap : n.heap ≡ m.heap
  pub hash_table : n.hash_table ≡ m.hash_table
  pub hash_int : n.hash_int ≡ m.hash_int

unfoldable pub reading : Frame
reading = record {
  holds = λ m. Unit {0};
  kept = λ s h. h;
  keeps = SameFiles;
  stay = λ m. record { blocks = refl; sb = refl; heap = refl; hash_table = refl; hash_int = refl };
  join = λ h k. record {
    blocks = k.blocks ∙ h.blocks;
    sb = k.sb ∙ h.sb;
    heap = k.heap ∙ h.heap;
    hash_table = k.hash_table ∙ h.hash_table;
    hash_int = k.hash_int ∙ h.hash_int;
  };
}

-- A command that leaves the layout of the image and the transaction as they were.
pub record SameMount (m n : Machine) : Type 0 where
  pub dsb : n.sb.dsb ≡ m.sb.dsb
  pub tx_in_progress : n.sb.tx_in_progress ≡ m.sb.tx_in_progress

unfoldable pub mounting : Frame
mounting = record {
  holds = λ m. Unit {0};
  kept = λ s h. h;
  keeps = SameMount;
  stay = λ m. record { dsb = refl; tx_in_progress = refl };
  join =
      λ h k. record { dsb = k.dsb ∙ h.dsb; tx_in_progress = k.tx_in_progress ∙ h.tx_in_progress };
}

pub mount_kept : {m n : Machine} → SameFiles m n → SameMount m n
mount_kept s = record {
  dsb = ap (λ (sb : SuperBlock). sb.dsb) s.sb;
  tx_in_progress = ap (λ (sb : SuperBlock). sb.tx_in_progress) s.sb;
}

pub Runs-mounting : {A : Type 0} (c : M A) → Runs reading c → Runs mounting c
unfolding mounting reading
Runs-mounting c h = Runs-weaken reading mounting c (λ m h. h) (λ m n s. mount_kept s) h

pub Runs-malloc : Runs reading malloc
unfolding malloc reading
Runs-malloc = record { at = λ m _. granting m.mallocs m }
  where
    granting :
        (l : List Bool) (m : Machine)
        → Ends reading m
            (elim l [ [] ↦ ok true m | granted ∷ rest ↦ ok granted (record m { mallocs = rest }) ])
    granting [] m = reading.stay m
    granting (g ∷ rest) m = record {
      blocks = refl;
      sb = refl;
      heap = refl;
      hash_table = refl;
      hash_int = refl;
    }

pub Runs-printf : (out : List Output) → Runs reading (printf out)
unfolding printf reading
Runs-printf out = record {
  at = λ m _. record { blocks = refl; sb = refl; heap = refl; hash_table = refl; hash_int = refl };
}
