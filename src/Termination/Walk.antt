-- ===== src/Termination/Walk.antt =====
-- inode.c: what is done to the heap of inodes while a directory is read: no inode in memory grows.
use klee_testfs.Common.{
  ℕ, zero, suc, ◌≤◌, ◌<◌, ◌≡◌, refl, sym, subst, Option, none, some, List, [], ◌∷◌, ◌++◌, arith,
  get_elem?, set, length, length-set,
}
use klee_testfs.Machine.{Machine, M, Inode, Ptr, store, free_inode, live}
use klee_testfs.Machine.Runs.{
  Frame, Ends, Runs, reading, mounting, mount_kept, SameFiles, SameMount, Runs-weaken,
}
use klee_testfs.Termination.Next.{size, size_in, size_of}

-- Of two heaps, the later one: no inode below `k` has grown.
pub record Shrinks (k : ℕ) (h h' : List (Option Inode)) : Type 0 where
  pub longer : length h ≤ length h'
  pub smaller : (q : Ptr) → q < k → size_in (live (get_elem? h' q)) ≤ size_in (live (get_elem? h q))

pub record Walks (k : ℕ) (m n : Machine) : Type 0 where
  pub mount : SameMount m n
  pub heap : Shrinks k m.heap n.heap

-- What a command may do to the inodes at the addresses below `k`, which are in use.
unfoldable pub below : ℕ → Frame
unfolding mounting
below k = record {
  holds = λ m. k ≤ length m.heap;
  keeps = Walks k;
  stay = λ m. record {
    mount = mounting.stay m;
    heap = record { longer = omega arith; smaller = λ q h. omega arith };
  };
  join = λ h i. record {
    mount = mounting.join h.mount i.mount;
    heap = record {
      longer = omega (arith, h.heap.longer, i.heap.longer);
      smaller = λ q lt. omega (arith, h.heap.smaller q lt, i.heap.smaller q lt);
    };
  };
  kept = λ h held. omega (arith, held, h.heap.longer);
}

pub same_heap : (k : ℕ) (h h' : List (Option Inode)) → h' ≡ h → Shrinks k h h'
same_heap k h h' e =
    subst (λ (x : List (Option Inode)). Shrinks k h x) (sym e)
      (record { longer = omega arith; smaller = λ q lt. omega arith })

pub Walks-kept : (k : ℕ) {m n : Machine} → SameFiles m n → Walks k m n
Walks-kept k {m} {n} s = record { mount = mount_kept s; heap = same_heap k m.heap n.heap s.heap }

pub Runs-below : {A : Type 0} (k : ℕ) (c : M A) → Runs reading c → Runs (below k) c
unfolding below reading
Runs-below k c h = Runs-weaken reading (below k) c (λ m held. tt) (λ m n s. Walks-kept k s) h

pub get_elem?-inside :
    {A : Type 0} (xs : List A) (i : ℕ) {a : A} → get_elem? xs i ≡ some a → i < length xs
get_elem?-inside [] i e = cc
get_elem?-inside (x ∷ xs) zero e = omega arith
get_elem?-inside (x ∷ xs) (suc i) e = omega (arith, get_elem?-inside xs i e)

-- A cell replaced by one that is no larger.
smaller-set :
    (h : List (Option Inode)) (p q : ℕ) (cell : Option Inode)
    → size_in cell ≤ size_in (live (get_elem? h p))
    → size_in (live (get_elem? (set h p cell) q)) ≤ size_in (live (get_elem? h q))
unfolding live
smaller-set [] p q cell le = omega arith
smaller-set (x ∷ h) zero zero cell le = le
smaller-set (x ∷ h) zero (suc q) cell le = omega arith
smaller-set (x ∷ h) (suc p) zero cell le = omega arith
smaller-set (x ∷ h) (suc p) (suc q) cell le = smaller-set h p q cell le

Shrinks-set :
    (k : ℕ) (h : List (Option Inode)) (p : ℕ) (cell : Option Inode)
    → size_in cell ≤ size_in (live (get_elem? h p))
    → Shrinks k h (set h p cell)
Shrinks-set k h p cell le = record {
  longer = omega (arith, length-set h p cell);
  smaller = λ q lt. smaller-set h p q cell le;
}

-- A cell at `k` or above replaced.
smaller-above :
    (h : List (Option Inode)) (p q : ℕ) (cell : Option Inode)
    → q < p
    → size_in (live (get_elem? (set h p cell) q)) ≤ size_in (live (get_elem? h q))
smaller-above [] p q cell lt = omega arith
smaller-above (x ∷ h) zero q cell lt = absurd (omega arith)
smaller-above (x ∷ h) (suc p) zero cell lt = omega arith
smaller-above (x ∷ h) (suc p) (suc q) cell lt = smaller-above h p q cell (omega arith)

pub smaller-append :
    (h : List (Option Inode)) (x : Option Inode) (q : ℕ)
    → q < length h
    → size_in (live (get_elem? (h ++ x ∷ []) q)) ≤ size_in (live (get_elem? h q))
smaller-append [] x q lt = absurd (omega arith)
smaller-append (y ∷ h) x zero lt = omega arith
smaller-append (y ∷ h) x (suc q) lt = smaller-append h x q (omega arith)

-- The same mount with another heap.
pub with_heap :
    (k : ℕ) (m : Machine) (h : List (Option Inode))
    → Shrinks k m.heap h
    → Walks k m (record m { heap = h })
unfolding mounting
with_heap k m h s = record { mount = record { dsb = refl; tx_in_progress = refl }; heap = s }

pub store-Ends :
    (k : ℕ) (m : Machine) (p : Ptr) (i : Inode)
    → size i ≤ size_of m p
    → Ends (below k) m (store p i m)
unfolding store below
store-Ends k m p i le = with_heap k m _ (Shrinks-set k m.heap p (some i) le)

pub free_inode-Runs : (k : ℕ) (p : Ptr) → Runs (below k) (free_inode p)
unfolding free_inode below
free_inode-Runs k p = record {
  at = λ m held. with_heap k m _ (Shrinks-set k m.heap p none (omega arith));
}

-- A store above the addresses in question.
pub store-Runs : (k : ℕ) (p : Ptr) (i : Inode) → k ≤ p → Runs (below k) (store p i)
unfolding store below
store-Runs k p i le = record {
  at = λ m held. with_heap k m _ (record {
    longer = omega (arith, length-set m.heap p (some i));
    smaller = λ q lt. smaller-above m.heap p q (some i) (omega (arith, le, lt));
  });
}
