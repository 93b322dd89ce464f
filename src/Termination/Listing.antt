-- ===== src/Termination/Listing.antt =====
-- dir.c: ls reads each entry of a directory and the inode that it names, and ends.
use klee_testfs.Common.{ℕ, zero, suc, ◌+◌, ◌<◌, ◌≤◌, ◌==◌, ◌&&◌, not, none, arith, length}
use klee_testfs.Machine.{Machine, Outcome, ok, stop, M, Ptr}
use klee_testfs.Machine.Runs.{
  Ends, Ends-bind, Runs, mounting, reading, runs_rules, Runs-bind, Runs-fetch, Runs-pure,
  Runs-printf, Runs-int, Runs-if,
}
use klee_testfs.Dir.Entry.{Dirent, rounds}
use klee_testfs.Dir.Path.{Context}
use klee_testfs.Dir.Listing.{name_of, ls_entry, ls_from, ls_flat, list_with, cmd_ls}
use klee_testfs.Termination.Next.{size_of}
use klee_testfs.Termination.Entries.{Ends-next, rounds_enough}
use klee_testfs.Termination.Walk.{below, Walks-kept, Runs-below}
use klee_testfs.Termination.Fetch.{get_inode-Runs, put_inode-Runs, Ends-fetch_at}
use klee_testfs.Termination.Inodes
use klee_testfs.Termination.Paths.{argument-Runs, resolve-Runs}

name_of-Runs : (d : Dirent) → Runs reading (name_of d)
unfolding name_of
name_of-Runs d = search runs_rules

ls_entry-Runs : (k : ℕ) (d : Dirent) (nr : ℕ) → Runs (below k) (ls_entry none d nr)
unfolding ls_entry
ls_entry-Runs k d nr = Runs-bind _ _ (get_inode-Runs k nr) (λ cin.
    Runs-bind _ _ (Runs-fetch cin) (λ i. Runs-bind _ _ (Runs-below k _ (name_of-Runs d)) (λ name.
      Runs-bind _ _ (Runs-below k _ (Runs-printf _))
        (λ _. Runs-bind _ _ (Runs-pure tt) (λ _. put_inode-Runs k cin)))))

ls_from-Ends :
    (k fuel : ℕ) (dir : Ptr) (offset : ℕ) (m : Machine)
    → dir < k
    → k ≤ length m.heap
    → size_of m dir < offset + fuel
    → 0 < fuel
    → Ends (below k) m (ls_from none fuel dir offset m)
unfolding ls_from below
ls_from-Ends k zero dir offset m inside held h hf = absurd (omega arith)
ls_from-Ends k (suc fuel) dir offset m inside held h hf =
    Ends-next (below k) m dir offset _ (λ n s. Walks-kept k s) (λ next n s. (below k).stay n)
      (λ d next n s before ahead.
        let there = (below k).kept (Walks-kept k s) held in
        let fewer = (Walks-kept k s).heap.smaller dir inside in
        Ends-bind (below k) (below k) n _ _ (λ o t. t)
          ((Runs-int d.d_inode_nr _ _ (λ nr. ls_entry-Runs k d nr) (λ e. Runs-pure tt)).at n there)
          (λ _ o t.
            ls_from-Ends k fuel dir next o inside ((below k).kept t there)
              (omega (arith, t.heap.smaller dir inside)) (omega arith)))

pub Ends-mounting :
    {A : Type 0} (k : ℕ) (m : Machine) (o : Outcome A) → Ends (below k) m o → Ends mounting m o
unfolding below mounting
Ends-mounting k m (ok a n) h = h.mount
Ends-mounting k m (stop s) h = h

ls_flat-Runs : (dir : Ptr) → Runs mounting (ls_flat dir)
unfolding ls_flat
ls_flat-Runs dir = record {
  at = λ m held. Ends-fetch_at mounting m dir _ (λ i e inside. Ends-mounting (suc dir) m _ (
      ls_from-Ends (suc dir) (rounds i) dir 0 m (omega arith) inside
        (omega (arith, e, rounds_enough i)) (omega (arith, rounds_enough i))));
}

pub list_with-Runs :
    (listing : Ptr → M (Unit {0})) (c : Context)
    → ((dir : Ptr) → Runs mounting (listing dir))
    → Runs mounting (list_with listing c)
unfolding list_with
list_with-Runs listing c h =
    Runs-if (not (c.nargs == 1) && not (c.nargs == 2)) _ _ (λ _. Runs-pure _)
      (λ _.
        Runs-bind _ _ (Runs-if (c.nargs == 2) _ _ (λ _. argument-Runs c 1) (λ _. Runs-pure _))
          (λ cdir. Runs-bind _ _ (resolve-Runs c cdir) (λ found.
            Runs-int found.0 _ _
              (λ nr. Runs-bind _ _ (Inodes.get_inode-Runs nr) (λ dir.
                Runs-bind _ _ (h dir)
                  (λ _. Runs-bind _ _ (Inodes.put_inode-Runs dir) (λ _. Runs-pure _))))
              (λ e. Runs-pure _))))

pub cmd_ls-Runs : (c : Context) → Runs mounting (cmd_ls c)
unfolding cmd_ls
cmd_ls-Runs c = list_with-Runs ls_flat c ls_flat-Runs
