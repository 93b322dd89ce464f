-- ===== src/Termination/Fetch.antt =====
-- inode.c: inodes fetched and released while a directory is read. No inode in memory grows, and one
-- that is loaded comes to a fresh address.
use klee_testfs.Common.{
  ℕ, ◌+◌, ◌-◌, ◌≤◌, ◌<◌, ◌≡◌, refl, ap, Bool, true, false, not, if◌then◌else◌, Option, none, some,
  List, [], ◌∷◌, ◌++◌, ◌==◌, arith, get_elem?, set, length, length-append,
}
use klee_testfs.Machine.{
  Machine, Outcome, ok, stop, M, Inode, Ptr, pure, assert, expect, fetch, store, free_inode, live,
  undefined, exited, put, get, abort, malloc, ◌>>=◌, ◌>>◌, and_then,
}
use klee_testfs.Machine.Runs.{
  Frame, Ends, Ends-bind, after_ok, Runs, reading, mounting, runs_rules, Runs-malloc, Runs-bind,
  Runs-fetch, Runs-pure, Runs-option,
}
use klee_testfs.Inode.Cache.{
  chain_of, set_chain, find_in, inode_hash_find, inode_hash_insert, inode_hash_remove,
  inode_hash_shift, new_inode, load_inode, get_inode, put_inode, zero_dinode,
}
use klee_testfs.Termination.Inodes.{read_inode_block-Runs}
use klee_testfs.Termination.Next.{size, size_in, size_of}
use klee_testfs.Termination.Walk.{
  Walks, below, Walks-kept, Runs-below, same_heap, with_heap, store-Ends, free_inode-Runs,
  store-Runs, get_elem?-inside, smaller-append,
}

-- Another hash table.
set_chain-Runs : (k nr : ℕ) (chain : List Ptr) → Runs (below k) (set_chain nr chain)
unfolding set_chain below mounting
set_chain-Runs k nr chain = record { at = λ m held. hashed m m.hash_table }
  where
    hashed :
        (m : Machine) (o : Option (List (List Ptr)))
        → Ends (below k) m (
            and_then (expect undefined o m) (λ table n.
              ok tt (record m {
                hash_table = some (set table (m.hash_int nr inode_hash_shift) chain);
              })))
    hashed m none = tt
    hashed m (some table) = record {
      mount = record { dsb = refl; tx_in_progress = refl };
      heap = same_heap k m.heap m.heap refl;
    }

chain_of-Runs : (k nr : ℕ) → Runs (below k) (chain_of nr)
unfolding chain_of
chain_of-Runs k nr = search runs_rules

find_in-Runs : (k : ℕ) (chain : List Ptr) (nr : ℕ) → Runs (below k) (find_in chain nr)
unfolding find_in
find_in-Runs k [] nr = search runs_rules
find_in-Runs k (p ∷ chain) nr =
    Runs-bind _ _ (Runs-fetch p) (λ i. search (runs_rules, find_in-Runs k chain nr))

inode_hash_find-Runs : (k nr : ℕ) → Runs (below k) (inode_hash_find nr)
unfolding inode_hash_find
inode_hash_find-Runs k nr = search (runs_rules, chain_of-Runs, find_in-Runs)

inode_hash_insert-Runs : (k : ℕ) (p : Ptr) (nr : ℕ) → Runs (below k) (inode_hash_insert p nr)
unfolding inode_hash_insert
inode_hash_insert-Runs k p nr = search (runs_rules, chain_of-Runs, set_chain-Runs)

inode_hash_remove-Runs : (k : ℕ) (p : Ptr) (nr : ℕ) → Runs (below k) (inode_hash_remove p nr)
unfolding inode_hash_remove
inode_hash_remove-Runs k p nr = search (runs_rules, chain_of-Runs, set_chain-Runs)

-- A new inode and what follows, which knows that its address is fresh.
new_inode-Runs :
    {A : Type 0} (k nr : ℕ) (rest : Ptr → M A)
    → ((p : Ptr) → k ≤ p → Runs (below k) (rest p))
    → Runs (below k) (new_inode nr >>= rest)
unfolding new_inode below mounting reading
new_inode-Runs {A = A} k nr rest h = record {
  at = λ m held. allocated m held (malloc m) (Runs-malloc.at m tt);
}
  where
    extended : Machine → Machine
    extended m = record m {
      heap =
          m.heap ++ some (record { dirty = false; din = zero_dinode; i_nr = nr; i_count = 1 }) ∷ [];
    }

    fresh : M Ptr
    fresh = do m ← get; put (extended m); pure (length m.heap)

    grown : (m : Machine) → k ≤ length m.heap → Walks k m (extended m)
    grown m held = with_heap k m _ (record {
      longer = omega (
        arith,
        length-append m.heap
            (some (record { dirty = false; din = zero_dinode; i_nr = nr; i_count = 1 }) ∷ []),
      );
      smaller = λ q lt. smaller-append m.heap _ q (omega (arith, held, lt));
    })

    allocated :
        (m : Machine)
        → k ≤ length m.heap
        → (o : Outcome Bool) → Ends reading m o
        → Ends
            (below k)
            m
            (and_then (and_then o (λ granted. if granted then fresh else abort exited)) rest)
    allocated m held (stop s) e = e
    allocated m held (ok false n) e = tt
    allocated m held (ok true n) e =
        let room : k ≤ length n.heap =
          omega (arith, held, ap (λ (x : List (Option Inode)). length x) e.heap) in
        let moved = (below k).join (Walks-kept k e) (grown n room) in
        after_ok (below k) moved (rest (length n.heap) (extended n))
          ((h (length n.heap) room).at (extended n) ((below k).kept moved held))

load_inode-Runs : (k nr : ℕ) → Runs (below k) (load_inode nr)
unfolding load_inode
load_inode-Runs k nr = new_inode-Runs k nr _ (λ p le.
    Runs-bind _ _ (Runs-below k _ (read_inode_block-Runs nr)) (λ block.
      Runs-bind _ _ (Runs-fetch p) (λ i.
        Runs-bind _ _ (store-Runs k p _ le)
          (λ _. Runs-bind _ _ (inode_hash_insert-Runs k p nr) (λ _. Runs-pure p)))))

-- An inode that is read, at an address in use.
pub Ends-fetch_at :
    {A : Type 0} (g : Frame) (m : Machine) (p : Ptr) (c : Inode → M A)
    → ((i : Inode) → size_of m p ≡ size i → p < length m.heap → Ends g m (c i m))
    → Ends g m ((fetch p >>= c) m)
unfolding fetch live
Ends-fetch_at {A = A} g m p c h = fetched (get_elem? m.heap p) refl
  where
    fetched :
        (o : Option (Option Inode))
        → get_elem? m.heap p ≡ o
        → Ends g m (and_then (expect undefined (live o) m) c)
    fetched none e = tt
    fetched (some none) e = tt
    fetched (some (some i)) e = h i (ap (λ x. size_in (live x)) e) (get_elem?-inside m.heap p e)

-- The count of an inode changed where it stands.
pub recounted :
    {A : Type 0} (k : ℕ) (m : Machine) (p : Ptr) (i : Inode) (n : ℕ) (rest : M A)
    → size_of m p ≡ size i
    → k ≤ length m.heap
    → Runs (below k) rest
    → Ends (below k) m ((store p (record i { i_count = n }) >> rest) m)
unfolding below
recounted k m p i n rest e held h =
    Ends-bind (below k) (below k) m _ _ (λ o s. s)
      (store-Ends k m p (record i { i_count = n }) (omega (arith, e)))
      (λ _ o s. h.at o ((below k).kept s held))

pub get_inode-Runs : (k nr : ℕ) → Runs (below k) (get_inode nr)
unfolding get_inode below
get_inode-Runs k nr = Runs-bind _ _ (inode_hash_find-Runs k nr) (λ found.
    Runs-option found _ _ (load_inode-Runs k nr) (λ p. record {
      at = λ m held.
          Ends-fetch_at (below k) m p _
            (λ i e lt. recounted k m p i (i.i_count + 1) (pure p) e held (Runs-pure p));
    }))

pub put_inode-Runs : (k : ℕ) (p : Ptr) → Runs (below k) (put_inode p)
unfolding put_inode below
put_inode-Runs k p = record {
  at = λ m held. Ends-fetch_at (below k) m p _ (λ i e lt. released m held i e (not i.dirty));
}
  where
    dropped :
        (m : Machine)
        → k ≤ length m.heap
        → (i : Inode) → size_of m p ≡ size i
        → (b : Bool)
        → Ends (below k) m (
            (if b
                then inode_hash_remove p i.i_nr >> free_inode p
                else store p (record i { i_count = i.i_count - 1 }))
              m)
    dropped m held i e true =
        (Runs-bind _ _ (inode_hash_remove-Runs k p i.i_nr) (λ _. free_inode-Runs k p)).at m held
    dropped m held i e false = store-Ends k m p _ (omega (arith, e))

    released :
        (m : Machine)
        → k ≤ length m.heap
        → (i : Inode) → size_of m p ≡ size i
        → (b : Bool)
        → Ends (below k) m (
            and_then (assert b m) (λ _.
              if i.i_count == 1
              then inode_hash_remove p i.i_nr >> free_inode p
              else store p (record i { i_count = i.i_count - 1 })))
    released m held i e true = dropped m held i e (i.i_count == 1)
    released m held i e false = tt
