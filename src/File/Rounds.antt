-- ===== src/File/Rounds.antt =====
-- file.c: the rounds of write and cat on a file, from testfs_get_inode to testfs_put_inode.
use klee_testfs.Common.{
  set, set-set, ℕ, zero, suc, ◌+◌, ◌-◌, ◌/◌, ◌≤◌, ◌<◌, ◌≡◌, ◌≢◌, refl, sym, ap, ◌∙◌, subst, true,
  false, not, some, List, [], ◌∷◌, pos, get_or, get_elem?, length, drop, le→leb, ==_ne, arith,
}
use klee_testfs.Bytes.{Bytes, IsBytes}
use klee_testfs.Bitmap.{Bitmap}
use klee_testfs.Machine.{
  pure, fetch, M, ◌>>=◌, ◌>>◌, Machine, Inode, Ptr, ok, store, i_dir, TxType, tx_none, tx_write,
}
use klee_testfs.Machine.Run.{then_ok, assert_then}
use klee_testfs.Machine.Runs.{Ends, mounting}
use klee_testfs.Block.Laws.{written, get_elem?-put_block_ne}
use klee_testfs.Tx.{tx_start, tx_commit, eq_tx}
use klee_testfs.Super.Mounted.{Mounted, heap-Mounted, tx-Mounted, written-Mounted}
use klee_testfs.Inode.Cache.{get_inode, inode_hash_find, put_inode, sync_inode}
use klee_testfs.Inode.Cache.Laws.{
  Holds, fetch-ok, set-get_elem?, with_inode, Holds-with_inode, get_elem?-lt,
}
use klee_testfs.Inode.Cache.Sync.{synced, sync_inode-ok, stored_block, length-stored_block}
use klee_testfs.Inode.Data.{write_data, truncate_data}
use klee_testfs.Dir.Contents.{IsName}
use klee_testfs.File.{cat_inode, write_at, write_inode, released}
use klee_testfs.File.Contents.{IsFile, printed, grown, write_data-IsFile, cat_inode-IsFile}
use klee_testfs.Termination.Inodes.{write_data-Runs}

inside_image {ℓ} :
    {A : Type ℓ} (xs : List A) (j : ℕ) → j < length xs → (a : A) × (get_elem? xs j ≡ some a)
inside_image [] j h = absurd (omega arith)
inside_image (x ∷ xs) zero h = (x, refl)
inside_image (x ∷ xs) (suc j) h = inside_image xs j (omega arith)

-- A transaction in progress or over does not change a file.
tx-IsFile :
    {m : Machine} {p : Ptr} {i : Inode} {k : ℕ} {content rest : Bytes} (t : TxType)
    → IsFile m p i k content rest
    → IsFile (record m { sb = record (m.sb) { tx_in_progress = t } }) p i k content rest
tx-IsFile t f = record {
  holds = f.holds;
  is_file = f.is_file;
  size = f.size;
  direct = f.direct;
  there = f.there;
  is_text = f.is_text;
  full = f.full;
  short = f.short;
  granted = f.granted;
}

write_data-tx :
    (p : Ptr) (content : Bytes) (m n : Machine)
    → write_data p 0 content m ≡ ok (pos 0) n
    → n.sb.tx_in_progress ≡ m.sb.tx_in_progress
unfolding mounting
write_data-tx p content m n run =
    (subst (Ends mounting m) run ((write_data-Runs p 0 content).at m tt)).tx_in_progress

module _ {m : Machine} {inodes blocks : Bitmap} {table : Bytes} (is : Mounted m inodes blocks table)
    {p : Ptr} {i : Inode} {k : ℕ} {content rest : Bytes} (f : IsFile m p i k content rest) where
  -- Cut at its own size, a file stays as it is.
  truncate_data-IsFile : truncate_data p (length content + 0) m ≡ ok tt m
  unfolding truncate_data
  truncate_data-IsFile =
      then_ok _ (fetch-ok m p f.holds)
      ∙ rw (f.size, le→leb (length content) (length content + 0) (omega arith)) refl

  -- A dirty file written to its inode block.
  sync_inode-IsFile :
      i.i_nr < 256
      → i.dirty ≡ true
      → (n : Machine) × Mounted n inodes blocks table
        × (sync_inode p m ≡ ok tt n)
        × IsFile n p (record i { dirty = false }) k content rest
        × (n.sb ≡ m.sb)
  sync_inode-IsFile inside dirty =
      let (block, there) =
        inside_image m.dev.blocks (64 + i.i_nr / 2) (omega (arith, is.fits, inside)) in
      let stored = stored_block is p f.holds inside there in
      (
        synced is p f.holds inside there,
        heap-Mounted _ (
            written-Mounted is (64 + i.i_nr / 2) stored (omega arith)
              (length-stored_block is p f.holds inside there)),
        sync_inode-ok is p f.holds inside there dirty,
        record {
          holds =
              Holds-with_inode (written m (64 + i.i_nr / 2) stored) p (record i { dirty = false })
                f.holds;
          is_file = f.is_file;
          size = f.size;
          direct = f.direct;
          there =
              get_elem?-put_block_ne m.dev.blocks (64 + i.i_nr / 2) (192 + k) stored
                (λ e. omega (arith, e, inside)) (get_elem?-lt m.dev.blocks (192 + k) f.there)
              ∙ f.there;
          is_text = f.is_text;
          full = f.full;
          short = f.short;
          granted = f.granted;
        },
        refl,
      )

-- testfs_put_inode of a clean inode that is referenced elsewhere too.
put_inode-shared :
    (m : Machine) (p : Ptr) {i : Inode}
    → Holds m p i
    → i.dirty ≡ false
    → 1 < i.i_count
    → put_inode p m ≡ ok tt (with_inode m p (record i { i_count = i.i_count - 1 }))
unfolding put_inode store
put_inode-shared m p {i} holds clean shared =
    then_ok _ (fetch-ok m p holds)
    ∙ assert_then _ m (ap not clean)
    ∙ rw (==_ne i.i_count 1 (λ e. omega (arith, e, shared))) refl

-- The clean inode that write leaves, with one reference less.
abbrev pub left_behind : Inode → Bytes → Inode
left_behind i content = record (grown i content) { dirty = false; i_count = i.i_count - 1 }

-- What testfs_get_inode does with an inode that the hash table finds.
abbrev pub retake : Ptr → M (Unit {0})
retake p = do i ← fetch p; store p (record i { i_count = i.i_count + 1 })

get_inode-retake :
    (m : Machine) (p : Ptr) {i : Inode} (nr : ℕ)
    → inode_hash_find nr m ≡ ok (some p) m
    → Holds m p i
    → get_inode nr m ≡ (do retake p; pure p) m
unfolding get_inode store
get_inode-retake m p nr found holds =
    then_ok _ found
    ∙ then_ok _ (fetch-ok m p holds)
    ∙ sym (then_ok _ (then_ok _ (fetch-ok m p holds)))

-- A file with another count of references.
counted-IsFile :
    {m : Machine} {p : Ptr} {i : Inode} {k : ℕ} {content rest : Bytes} (n : ℕ)
    → IsFile m p i k content rest
    → IsFile (with_inode m p (record i { i_count = n })) p (record i { i_count = n }) k content rest
counted-IsFile {m} {p} {i} n f = record {
  holds = Holds-with_inode m p (record i { i_count = n }) f.holds;
  is_file = f.is_file;
  size = f.size;
  direct = f.direct;
  there = f.there;
  is_text = f.is_text;
  full = f.full;
  short = f.short;
  granted = f.granted;
}

-- A whole round of cat on a clean file in memory.
cat_inode-retake :
    (m : Machine) (p : Ptr) {i : Inode} {k : ℕ} {content rest : Bytes}
    → IsFile m p i k content rest
    → i.dirty ≡ false
    → 0 < i.i_count
    → (retake p >> released p (cat_inode p)) m ≡ ok (pos 0) (printed m content)
unfolding released store
cat_inode-retake m p {i} {k} {content} {rest} f clean counted =
    then_ok _ (then_ok _ (fetch-ok m p f.holds))
    ∙ then_ok _ (cat_inode-IsFile g)
    ∙ then_ok _ (
        put_inode-shared (printed (with_inode m p taken) content) p g.holds clean
          (omega (arith, counted)))
    ∙ ap (λ h. ok (pos 0) (record (printed m content) { heap = h })) back
  where
    taken : Inode
    taken = record i { i_count = i.i_count + 1 }

    g : IsFile (with_inode m p taken) p taken k content rest
    g = counted-IsFile (i.i_count + 1) f

    count : i.i_count + 1 - 1 ≡ i.i_count
    count = omega arith

    back :
        set (set m.heap p (some taken)) p (some (record taken { i_count = taken.i_count - 1 }))
        ≡ m.heap
    back =
        set-set m.heap p (some taken) (some (record taken { i_count = taken.i_count - 1 }))
        ∙ ap (λ c. set m.heap p (some (record i { i_count = c }))) count
        ∙ set-get_elem? m.heap p (some i) f.holds

module _ {m : Machine} {inodes blocks : Bitmap} {table : Bytes} (is : Mounted m inodes blocks table)
    (p : Ptr) {i : Inode} (holds : Holds m p i) (inode_nr : i.i_nr < 256) (shared : 1 < i.i_count)
    (idle : m.sb.tx_in_progress ≡ tx_none) (k s : ℕ) (content block : Bytes) (inside : k < 960)
    (file : i.din.i_type ≢ i_dir) (size : i.din.i_size ≡ pos s) (grows : s ≤ length content)
    (direct : get_or i.din.i_block_nr 0 (pos 0) ≡ pos (192 + k))
    (there : get_elem? m.dev.blocks (192 + k) ≡ some block) (bytes : IsBytes block)
    (is_text : IsName content) (full : 0 < length content) (short : length content ≤ 64)
    (granted : m.mallocs ≡ []) where
  abbrev writing : Machine
  writing = record m { sb = record (m.sb) { tx_in_progress = tx_write } }

  tx_start-writing : tx_start tx_write m ≡ ok tt writing
  unfolding tx_start
  tx_start-writing = assert_then _ m (ap (λ t. eq_tx t tx_none) idle)

  tx_commit-idle :
      (n : Machine)
      → n.sb.tx_in_progress ≡ tx_write
      → tx_commit tx_write n ≡ ok tt (record n { sb = record (n.sb) { tx_in_progress = tx_none } })
  unfolding tx_commit
  tx_commit-idle n e = assert_then _ n (ap (λ t. eq_tx t tx_write) e)

  write_inode-IsFile :
      (n : Machine) × (t : Bytes) × Mounted n inodes blocks t
      × (write_inode p (pos 0) content m ≡ ok (pos 0) n)
      × IsFile n p
          (record (grown i content) { dirty = false })
          k
          content
          (drop (length content) block)
      × (n.sb.tx_in_progress ≡ tx_none)
  unfolding write_inode write_at
  write_inode-IsFile =
      let (n, t, mounted, run, f) =
        write_data-IsFile (tx-Mounted tx_write is) p holds k s content block inside file size grows
          direct there bytes is_text full short granted in
      let (o, mounted_o, sync, f_o, same) = sync_inode-IsFile mounted f inode_nr refl in
      (
        record o { sb = record (o.sb) { tx_in_progress = tx_none } },
        t,
        tx-Mounted tx_none mounted_o,
        then_ok _ (fetch-ok m p holds)
            ∙ rw (==_ne i.din.i_type i_dir file) (
                then_ok _ tx_start-writing
                ∙ then_ok _ (then_ok _ run ∙ then_ok _ (truncate_data-IsFile mounted f))
                ∙ then_ok _ sync
                ∙ then_ok _ (
                    tx_commit-idle o
                      (ap (λ sb. sb.tx_in_progress) same ∙ write_data-tx p content writing n run))),
        tx-IsFile tx_none f_o,
        refl,
      )

  pub cat_inode-write_inode :
      (n : Machine) × (t : Bytes) × Mounted n inodes blocks t
      × (released p (write_inode p (pos 0) content) m ≡ ok (pos 0) n)
      × (n.sb.tx_in_progress ≡ tx_none)
      × Holds n p (left_behind i content)
      × ((retake p >> released p (cat_inode p)) n ≡ ok (pos 0) (printed n content))
  unfolding released
  cat_inode-write_inode =
      let (n, t, mounted, run, f, over) = write_inode-IsFile in
      let g = counted-IsFile (i.i_count - 1) f in
      (
        with_inode n p (left_behind i content),
        t,
        heap-Mounted _ mounted,
        then_ok _ run ∙ then_ok _ (put_inode-shared n p f.holds refl shared),
        over,
        g.holds,
        cat_inode-retake (with_inode n p (left_behind i content)) p g refl (omega (arith, shared)),
      )
