-- ===== src/Termination/Checkfs.antt =====
-- super.c: checkfs ends, since each call marks an inode before it goes one level down.
use klee_testfs.Common.{
  ℕ, zero, suc, ◌+◌, ◌≤◌, ◌<◌, ◌≡◌, refl, ◌∙◌, Bool, true, false, ◌||◌, ◌==◌, if◌then◌else◌, Option,
  none, some, ℤ, pos, negsuc, eq_int, arith, length,
}
use klee_testfs.Bitmap.{Bitmap}
use klee_testfs.Bitmap
use klee_testfs.Bitmap.Alloc.{nr_allocated-le, nr_allocated-mark}
use klee_testfs.Machine.{
  Machine, Outcome, ok, stop, M, Ptr, pure, expect, assertion, ◌>>=◌, ◌>>◌, fetch, assert, i_dir,
  i_file, Inode,
}
use klee_testfs.Machine.Runs.{
  Frame, Runs-weaken, Ends, Runs, Runs-bind, Runs-pure, Runs-if, Runs-expect, Runs-assert,
  runs_rules,
}
use klee_testfs.Inode.Blocks.{check_inode}
use klee_testfs.Inode.Cache.{get_inode, put_inode}
use klee_testfs.Dir.Entry.{rounds}
use klee_testfs.Super.Check.{Maps, check_children, checkfs, round_up}
use klee_testfs.Termination.Blocks.{check_inode-Runs}
use klee_testfs.Termination.Next.{Holds, Gives, size, size_of}
use klee_testfs.Termination.Entries.{rounds_enough}
use klee_testfs.Termination.Walk.{below, Walks, Runs-below}
use klee_testfs.Termination.Fetch.{get_inode-Runs, put_inode-Runs, Ends-fetch_at}
use klee_testfs.Termination.Check.{
  Grown, Ends-bind_given, Gives-then, Anything, anything, check_children-Gives, check_children-Ends,
}

-- A bit marked in the map of inodes: one more is in use.
marked-Gives :
    (nbits used nr : ℕ) (a b : Bitmap)
    → Grown nbits used (a, b)
    → Gives (λ c. Grown nbits (used + 1) (c, b)) (expect assertion (Bitmap.mark a nr))
marked-Gives nbits used nr a b (valid, size, some_used) = record {
  at = λ m. by_mark m (Bitmap.mark a nr) refl;
}
  where
    by_mark :
        (m : Machine) (o : Option Bitmap)
        → Bitmap.mark a nr ≡ o
        → Holds (λ c. Grown nbits (used + 1) (c, b)) (expect assertion o m)
    by_mark m none e = tt
    by_mark m (some c) e =
        let (is, same, more) = nr_allocated-mark nr c valid e in
        (is, same ∙ size, omega (arith, more, some_used))

fewer : (nbits used : ℕ) (r : Maps) → Grown nbits (used + 1) r → Grown nbits used r
fewer nbits used r (valid, size, some_used) = (valid, size, omega (arith, some_used))

-- The parts of testfs_checkfs: the entries of a directory, and what follows them.
abbrev entries : ℕ → Ptr → Inode → Maps → M Maps
entries depth p i maps =
    if i.din.i_type == i_dir then check_children (checkfs depth) (rounds i) p 0 maps else pure maps

abbrev block_processing : Ptr → ℤ → Maps → M Maps
block_processing p size_roundup maps = do
  (size, b_freemap) ← check_inode maps.1 p
  assert (eq_int (pos size) size_roundup)
  put_inode p
  pure (maps.0, b_freemap)

block_processing-Gives :
    (nbits used : ℕ) (p : Ptr) (size_roundup : ℤ) (r : Maps)
    → Grown nbits used r
    → Gives (Grown nbits used) (block_processing p size_roundup r)
block_processing-Gives nbits used p size_roundup r g =
    Gives-then Anything (Grown nbits used) (check_inode r.1 p) _ (anything _) (λ d _.
      Gives-then Anything (Grown nbits used) (assert (eq_int (pos d.0) size_roundup))
        (λ _. put_inode p >> pure (r.0, d.1)) (anything _)
        (λ _ _.
          Gives-then Anything (Grown nbits used) (put_inode p) (λ _. pure (r.0, d.1)) (anything _)
            (λ _ _. record { at = λ m. g })))

entries-Gives :
    (nbits used depth : ℕ) (p : Ptr) (i : Inode) (r : Maps)
    → ((nr : ℕ) (maps : Maps)
        → Grown nbits used maps
        → Gives (Grown nbits used) (checkfs depth nr maps))
    → Grown nbits used r
    → Gives (Grown nbits used) (entries depth p i r)
entries-Gives nbits used depth p i r rec g = by_type (i.din.i_type == i_dir)
  where
    by_type :
        (dir : Bool)
        → Gives
            (Grown nbits used)
            (if dir then check_children (checkfs depth) (rounds i) p 0 r else pure r)
    by_type true = check_children-Gives (checkfs depth) nbits used rec (rounds i) p 0 r g
    by_type false = record { at = λ m. g }

checkfs-Gives :
    (depth nr : ℕ) (maps : Maps) (nbits used : ℕ)
    → Grown nbits used maps
    → Gives (Grown nbits used) (checkfs depth nr maps)
unfolding checkfs
checkfs-Gives zero nr maps nbits used g = record { at = λ m. tt }
checkfs-Gives (suc depth) nr (a, b) nbits used g =
    Gives-then Anything (Grown nbits used) (get_inode nr) _ (anything _) (λ p _.
      Gives-then Anything (Grown nbits used) (fetch p) _ (anything _) (λ i _.
        Gives-then Anything (Grown nbits used) (round_up i.din.i_size) _ (anything _)
          (λ size_roundup _.
            Gives-then Anything (Grown nbits used)
              (assert ((i.din.i_type == i_file) || (i.din.i_type == i_dir))) _ (anything _)
              (λ _ _.
                Gives-then (λ c. Grown nbits (used + 1) (c, b)) (Grown nbits used)
                  (expect assertion (Bitmap.mark a nr)) _ (marked-Gives nbits used nr a b g)
                  (λ c g'.
                    Gives-then (Grown nbits used) (Grown nbits used) (entries depth p i (c, b))
                      (block_processing p size_roundup)
                      (entries-Gives nbits used depth p i (c, b)
                        (λ nr maps h. checkfs-Gives depth nr maps nbits used h)
                        (fewer nbits used (c, b) g'))
                      (block_processing-Gives nbits used p size_roundup))))))

-- What a command may do while the directory at `p`, which is in use, has at most `n` bytes.
unfoldable directory : (k : ℕ) (p : Ptr) → p < k → ℕ → Frame
unfolding below
directory k p inside n = record {
  holds = λ m. (k ≤ length m.heap) × (size_of m p ≤ n);
  keeps = Walks k;
  stay = (below k).stay;
  join = (below k).join;
  kept = λ h held. ((below k).kept h held.0, omega (arith, h.heap.smaller p inside, held.1));
}

Runs-directory :
    {A : Type 0} (k : ℕ) (p : Ptr) (inside : p < k) (n : ℕ) (c : M A)
    → Runs (below k) c
    → Runs (directory k p inside n) c
unfolding directory below
Runs-directory k p inside n c h =
    Runs-weaken (below k) (directory k p inside n) c (λ m held. held.0) (λ m o s. s) h

pub Runs-given :
    {A B : Type 0} (P : A → Type 0) (f : Frame) (c : M A) (k : A → M B)
    → Gives P c
    → Runs f c
    → ((a : A) → P a → Runs f (k a))
    → Runs f (c >>= k)
Runs-given P f c k given hc hk = record {
  at = λ m held.
      Ends-bind_given P f m (c m) k (given.at m) (hc.at m held)
        (λ a n g s. (hk a g).at n (f.kept s held));
}

-- Fewer addresses.
narrower :
    {A : Type 0} (k k' : ℕ) (m : Machine) (o : Outcome A)
    → k ≤ k'
    → Ends (below k') m o
    → Ends (below k) m o
unfolding below
narrower k k' m (ok a n) le h = record {
  mount = h.mount;
  heap = record {
    longer = h.heap.longer;
    smaller = λ q lt. h.heap.smaller q (omega (arith, lt, le));
  };
}
narrower k k' m (stop s) le h = h

entries-Runs :
    (k : ℕ) (p : Ptr) (inside : p < k) (nbits used depth : ℕ) (i : Inode) (r : Maps)
    → ((nr : ℕ) (maps : Maps) → Grown nbits used maps → Runs (below k) (checkfs depth nr maps))
    → Grown nbits used r
    → Runs (directory k p inside (size i)) (entries depth p i r)
unfolding directory below
entries-Runs k p inside nbits used depth i r rec g =
    Runs-if (i.din.i_type == i_dir) _ _
      (λ _. record {
        at = λ m held.
            check_children-Ends (checkfs depth) nbits used
              (λ nr maps h. checkfs-Gives depth nr maps nbits used h) k rec (rounds i) p 0 r m g
              inside held.0 (omega (arith, held.1, rounds_enough i))
              (omega (arith, rounds_enough i));
      })
      (λ _. Runs-pure r)

block_processing-Runs :
    (k : ℕ) (p : Ptr) (size_roundup : ℤ) (r : Maps)
    → Runs (below k) (block_processing p size_roundup r)
block_processing-Runs k p size_roundup r =
    Runs-bind _ _ (Runs-below k _ (check_inode-Runs r.1 p)) (λ d.
      Runs-bind _ _ (Runs-assert (eq_int (pos d.0) size_roundup))
        (λ _. Runs-bind _ _ (put_inode-Runs k p) (λ _. Runs-pure _)))

round_up-Runs : {f : Frame} (z : ℤ) → Runs f (round_up z)
round_up-Runs (pos n) = search runs_rules
round_up-Runs (negsuc n) = search runs_rules

pub checkfs-Runs :
    (depth nr : ℕ) (maps : Maps) (nbits used k : ℕ)
    → Grown nbits used maps
    → nbits < depth + used
    → Runs (below k) (checkfs depth nr maps)
unfolding checkfs below directory
checkfs-Runs zero nr maps nbits used k g h =
    absurd (omega (arith, nr_allocated-le maps.0, g.1, g.2))
checkfs-Runs (suc depth) nr (a, b) nbits used k g h = Runs-bind _ _ (get_inode-Runs k nr) (λ p.
    record {
      at = λ m held. Ends-fetch_at (below k) m p _ (λ i e inside.
          narrower k (length m.heap) m _ held (
            (Runs-bind _ _ (round_up-Runs i.din.i_size) (λ size_roundup.
                Runs-bind _ _ (Runs-assert ((i.din.i_type == i_file) || (i.din.i_type == i_dir)))
                  (λ _.
                    Runs-given (λ c. Grown nbits (used + 1) (c, b))
                      (directory (length m.heap) p inside (size i))
                      (expect assertion (Bitmap.mark a nr)) _ (marked-Gives nbits used nr a b g)
                      (Runs-expect assertion (Bitmap.mark a nr) tt)
                      (λ c g'.
                        Runs-bind _ _
                          (entries-Runs (length m.heap) p inside nbits (used + 1) depth i (c, b)
                            (λ nr maps g''.
                              checkfs-Runs depth nr maps nbits (used + 1) (length m.heap) g''
                                (omega (arith, h)))
                            g')
                          (λ r.
                            Runs-directory (length m.heap) p inside (size i) _
                              (block_processing-Runs (length m.heap) p size_roundup r)))))).at
              m (omega arith, omega (arith, e))));
    })
