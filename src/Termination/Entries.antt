-- ===== src/Termination/Entries.antt =====
-- dir.c: the loops over the entries of a directory. Each round goes on by at least one byte, so a loop
-- has fewer rounds than the directory has bytes.
use klee_testfs.Common.{
  ℕ, zero, suc, ◌+◌, ◌<◌, ◌≡◌, refl, ap, ◌∙◌, subst, Bool, true, false, Option, none, some, ℤ, pos,
  negsuc, eq_int, ◌==◌, arith, get_elem?,
}
use klee_testfs.Bytes.{Bytes}
use klee_testfs.Machine.{
  Machine, Outcome, ok, stop, M, Inode, Ptr, pure, assert, expect, fetch, live, undefined, ◌>>=◌,
  ◌>>◌, and_then, i_dir,
}
use klee_testfs.Machine.Runs.{
  Frame, Ends, after_ok, Runs, reading, SameFiles, Runs-weaken, Runs-pure, Runs-bind, Runs-if,
}
use klee_testfs.Dir.Entry.{
  Dirent, assert_dir, next_dirent, rounds, find_from, find_dirent, search_from,
}
use klee_testfs.Dir.Path.{search_entry}
use klee_testfs.Termination.Next.{
  Holds, IsAhead, IsInside, size, size_in, size_of, next_dirent-Runs, next_dirent-IsInside,
  next_dirent-IsAhead, is_entry-Runs,
}

pub size_kept : (m n : Machine) (dir : Ptr) → SameFiles m n → size_of n dir ≡ size_of m dir
size_kept m n dir s = ap (λ heap. size_in (live (get_elem? heap dir))) s.heap

-- What a command may do while the directory at `dir` has `n` bytes.
unfoldable pub sized : Ptr → ℕ → Frame
unfolding reading
sized dir n = record {
  holds = λ m. size_of m dir ≡ n;
  keeps = SameFiles;
  stay = reading.stay;
  join = reading.join;
  kept = λ {m} {n} s h. size_kept m n dir s ∙ h;
}

pub Runs-sized : {A : Type 0} (dir : Ptr) (n : ℕ) (c : M A) → Runs reading c → Runs (sized dir n) c
unfolding sized reading
Runs-sized dir n c h = Runs-weaken reading (sized dir n) c (λ m held. tt) (λ m o k. k) h

-- After a call of next_dirent: without an entry, or with one behind the offset.
pub Ends-next :
    {A : Type 0} (g : Frame) (m : Machine) (dir : Ptr) (offset : ℕ) (k : Option Dirent × ℕ → M A)
    → ((n : Machine) → SameFiles m n → g.keeps m n)
    → ((next : ℕ) (n : Machine) → SameFiles m n → Ends g n (k (none, next) n))
    → ((d : Dirent) (next : ℕ) (n : Machine)
        → SameFiles m n
        → offset < size_of m dir
        → offset < next
        → Ends g n (k (some d, next) n))
    → Ends g m (and_then (next_dirent dir offset m) k)
unfolding reading
Ends-next {A = A} g m dir offset k wider hn hs =
    after (next_dirent dir offset m) ((next_dirent-Runs dir offset).at m tt)
      (next_dirent-IsInside m dir offset) ((next_dirent-IsAhead dir offset).at m)
  where
    after :
        (o : Outcome (Option Dirent × ℕ))
        → Ends reading m o
        → Holds (IsInside (size_of m dir) offset) o
        → Holds (IsAhead offset) o
        → Ends g m (and_then o k)
    after (stop s) h _ _ = h
    after (ok (none, next) n) h _ _ = after_ok g (wider n h) (k (none, next) n) (hn next n h)
    after (ok (some d, next) n) h inside ahead =
        after_ok g (wider n h) (k (some d, next) n) (hs d next n h inside ahead)

pub Runs-next :
    {A : Type 0} (dir : Ptr) (n offset : ℕ) (k : Option Dirent × ℕ → M A)
    → ((next : ℕ) → Runs (sized dir n) (k (none, next)))
    → ((d : Dirent) (next : ℕ) → offset < n → offset < next → Runs (sized dir n) (k (some d, next)))
    → Runs (sized dir n) (next_dirent dir offset >>= k)
unfolding sized
Runs-next dir n offset k hn hs = record {
  at = λ m h.
      Ends-next (sized dir n) m dir offset k (λ o s. s)
        (λ next o s. (hn next).at o ((sized dir n).kept s h))
        (λ d next o s inside ahead.
          (hs d next (subst (λ x. offset < x) h inside) ahead).at o ((sized dir n).kept s h));
}

pub round_left :
    (fuel n offset next : ℕ) → n < offset + suc fuel → offset < n → offset < next → n < next + fuel
round_left fuel n offset next h inside ahead = omega arith

-- The loops over the entries: `n` bytes, and a round for each byte behind the offset.
search_from-Runs :
    (fuel : ℕ) (dir : Ptr) (name : Bytes) (offset : ℕ) (ret : ℤ) (n : ℕ)
    → n < offset + fuel
    → 0 < fuel
    → Runs (sized dir n) (search_from fuel dir name offset ret)
unfolding search_from
search_from-Runs zero dir name offset ret n h hf = absurd (omega arith)
search_from-Runs (suc fuel) dir name offset ret n h hf =
    Runs-next dir n offset _ (λ next. Runs-pure ret)
      (λ d next inside ahead. Runs-bind _ _ (Runs-sized dir n _ (is_entry-Runs d name)) (λ found.
        Runs-if found _ _ (λ _. Runs-pure _)
          (λ _. search_from-Runs fuel dir name next ret n (omega arith) (omega arith))))

find_from-Runs :
    (fuel : ℕ) (dir : Ptr) (nr offset n : ℕ)
    → n < offset + fuel
    → 0 < fuel
    → Runs (sized dir n) (find_from fuel dir nr offset)
unfolding find_from
find_from-Runs zero dir nr offset n h hf = absurd (omega arith)
find_from-Runs (suc fuel) dir nr offset n h hf =
    Runs-next dir n offset _ (λ next. Runs-pure none)
      (λ d next inside ahead.
        Runs-if (eq_int d.d_inode_nr (pos nr)) _ _ (λ _. Runs-pure (some d))
          (λ _. find_from-Runs fuel dir nr next n (omega arith) (omega arith)))

-- A directory that is read has its size.
pub Ends-fetch :
    {A : Type 0} (g : Frame) (m : Machine) (dir : Ptr) (k : Inode → M A)
    → ((i : Inode) → size_of m dir ≡ size i → Ends g m (k i m))
    → Ends g m ((fetch dir >>= k) m)
unfolding fetch
Ends-fetch {A = A} g m dir k h = fetched (live (get_elem? m.heap dir)) h
  where
    fetched :
        (o : Option Inode)
        → ((i : Inode) → size_in o ≡ size i → Ends g m (k i m))
        → Ends g m (and_then (expect undefined o m) k)
    fetched none h = tt
    fetched (some i) h = h i refl

pub Ends-assert_dir :
    {A : Type 0} (g : Frame) (m : Machine) (dir : Ptr) (k : Inode → M A)
    → ((i : Inode) → size_of m dir ≡ size i → Ends g m (k i m))
    → Ends g m ((assert_dir dir >>= k) m)
unfolding fetch
Ends-assert_dir {A = A} g m dir k h = fetched (live (get_elem? m.heap dir)) h
  where
    asserted :
        (i : Inode) (b : Bool)
        → Ends g m (k i m)
        → Ends g m (and_then (and_then (assert b m) (λ _. pure i)) k)
    asserted i true h = h
    asserted i false h = tt

    fetched :
        (o : Option Inode)
        → ((i : Inode) → size_in o ≡ size i → Ends g m (k i m))
        → Ends g m (
            and_then
              (and_then (expect undefined o m) (λ i. assert (i.din.i_type == i_dir) >> pure i))
              k)
    fetched none h = tt
    fetched (some i) h = asserted i (i.din.i_type == i_dir) (h i refl)

-- What a loop over a directory does is what may be done with its size at hand.
pub Runs-over :
    {A : Type 0} (m : Machine) (dir : Ptr) (n : ℕ) (c : M A)
    → Runs (sized dir n) c
    → size_of m dir ≡ n
    → Ends reading m (c m)
unfolding sized reading
Runs-over {A = A} m dir n c h e = weaken (c m) (h.at m e)
  where
    weaken : (o : Outcome A) → Ends (sized dir n) m o → Ends reading m o
    weaken (ok a o) k = k
    weaken (stop s) k = k

pub rounds_enough : (i : Inode) → size i < 0 + rounds i
rounds_enough i = enough_for i.din.i_size
  where
    enough_for :
        (z : ℤ) → elim z [ pos n ↦ n | negsuc n ↦ 0 ] < 0 + elim z [ pos n ↦ n + 1 | negsuc n ↦ 1 ]
    enough_for (pos n) = omega arith
    enough_for (negsuc n) = omega arith

pub search_entry-Runs : (dir : Ptr) (name : Bytes) → Runs reading (search_entry dir name)
unfolding search_entry
search_entry-Runs dir name = record {
  at = λ m _. Ends-fetch reading m dir _ (λ i e.
      Runs-over m dir (size i) _
        (search_from-Runs (rounds i) dir name 0 _ (size i) (rounds_enough i)
          (omega (arith, rounds_enough i)))
        e);
}

pub find_dirent-Runs : (dir : Ptr) (nr : ℕ) → Runs reading (find_dirent dir nr)
unfolding find_dirent
find_dirent-Runs dir nr = record {
  at = λ m _. Ends-assert_dir reading m dir _ (λ i e.
      Runs-over m dir (size i) _
        (find_from-Runs (rounds i) dir nr 0 (size i) (rounds_enough i)
          (omega (arith, rounds_enough i)))
        e);
}
