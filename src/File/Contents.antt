-- ===== src/File/Contents.antt =====
-- file.c: the contents of a file in one block, printed by cat and oread.
use klee_testfs.Common.{
  ℕ, zero, suc, ◌+◌, ◌-◌, ◌/◌, ◌%◌, ◌≤◌, ◌<◌, ◌≡◌, ◌≢◌, ◌⊎◌, inl, inr, refl, sym, ap, ◌∙◌, true,
  false, Bool-cases, some, [], ◌∷◌, ◌++◌, pos, le_int, get_or, get_elem?, length, take, drop, slice,
  splice, if◌then◌else◌, ltb, le→leb, lt→leb, ltb→lt, ==_ne, arith,
}
use klee_testfs.Bytes.{Bytes, IsBytes}
use klee_testfs.Bitmap.{Bitmap}
use klee_testfs.Machine.{Machine, Inode, Ptr, ok, pure, ◌>>=◌, ◌>>◌, undefined, printf, text, i_dir}
use klee_testfs.Machine.Run.{then_ok, expect_then}
use klee_testfs.Block.Laws.{take-length}
use klee_testfs.Super.Mounted.{Mounted, heap-Mounted}
use klee_testfs.Inode.Cache.Laws.{Holds, fetch-ok, with_inode, Holds-with_inode}
use klee_testfs.Inode.Data.{write_data, read_data, with_size, max_int}
use klee_testfs.Inode.Data.Read.{read_data_lem}
use klee_testfs.Inode.Data.Write.{write_data_lem}
use klee_testfs.Dir.Contents.{IsName, c_string-name}
use klee_testfs.Dir.Contents.Place.{name-IsBytes, malloc-ok}
use klee_testfs.Dir.Contents.Inserted.{larger}
use klee_testfs.File.{newline, print_buffer, cat_inode, oread_inode}

-- The inode at `p` is a file that is not empty and holds the text `content`, which stands in its first
-- block, data block `k`, before `rest`. No allocation is going to fail.
pub record IsFile (m : Machine) (p : Ptr) (i : Inode) (k : ℕ) (content rest : Bytes) : Type 0 where
  pub holds : Holds m p i
  pub is_file : i.din.i_type ≢ i_dir
  pub size : i.din.i_size ≡ pos (length content)
  pub direct : get_or i.din.i_block_nr 0 (pos 0) ≡ pos (192 + k)
  pub there : get_elem? m.dev.blocks (192 + k) ≡ some (content ++ rest)
  pub is_text : IsName content
  pub full : 0 < length content
  pub short : length content ≤ 64
  pub granted : m.mallocs ≡ []

-- The state with a line printed.
abbrev pub printed : Machine → Bytes → Machine
printed m line = record m { stdout = m.stdout ++ text (line ++ newline) ∷ [] }

take-IsName : (n : ℕ) (s : Bytes) → IsName s → IsName (take n s)
take-IsName zero s h = tt
take-IsName (suc n) [] h = tt
take-IsName (suc n) (b ∷ s) (low, high, rest) = (low, high, take-IsName n s rest)

slice-IsName : (i n : ℕ) (s : Bytes) → IsName s → IsName (slice i n s)
unfolding slice
slice-IsName zero n s h = take-IsName n s h
slice-IsName (suc i) n [] h = take-IsName n [] h
slice-IsName (suc i) n (b ∷ s) (low, high, rest) = slice-IsName i n s rest

print_buffer-text :
    (m : Machine) (s : Bytes) → IsName s → print_buffer (pos 0, s) m ≡ ok tt (printed m s)
unfolding print_buffer printf
print_buffer-text m s h =
    expect_then undefined (λ s. printf (text (s ++ newline) ∷ [])) m (c_string-name s h)

slice-append_left :
    (i n : ℕ) (xs ys : Bytes) → i + n ≤ length xs → slice i n (xs ++ ys) ≡ slice i n xs
unfolding slice
slice-append_left zero zero xs ys h = refl
slice-append_left zero (suc n) [] ys h = absurd (omega arith)
slice-append_left zero (suc n) (x ∷ xs) ys h =
    ap (λ r. x ∷ r) (slice-append_left zero n xs ys (omega arith))
slice-append_left (suc i) n [] ys h = absurd (omega arith)
slice-append_left (suc i) n (x ∷ xs) ys h = slice-append_left i n xs ys (omega arith)

take-all : (n : ℕ) (xs : Bytes) → length xs ≤ n → take n xs ≡ xs
take-all zero [] h = refl
take-all zero (x ∷ xs) h = absurd (omega arith)
take-all (suc n) [] h = refl
take-all (suc n) (x ∷ xs) h = ap (λ r. x ∷ r) (take-all n xs (omega arith))

-- What is asked for past the end is not there.
slice-cut :
    (i n : ℕ) (xs : Bytes)
    → i ≤ length xs
    → length xs ≤ i + n
    → slice i (length xs - i) xs ≡ slice i n xs
unfolding slice
slice-cut zero n xs low h =
    take-all (length xs - 0) xs (omega arith) ∙ sym (take-all n xs (omega (arith, h)))
slice-cut (suc i) n [] low h = absurd (omega arith)
slice-cut (suc i) n (x ∷ xs) low h =
    ap (λ k. slice i k xs) less ∙ slice-cut i n xs (omega arith) (omega (arith, h))
  where
    less : suc (length xs) - suc i ≡ length xs - i
    less = omega arith

module _ {m : Machine} {p : Ptr} {i : Inode} {k : ℕ} {content rest : Bytes}
    (f : IsFile m p i k content rest) where
  abbrev pub len : ℕ
  len = length content

  read_data-IsFile :
      (start size : ℕ)
      → start < 64
      → start + size ≤ len
      → read_data p start size m ≡ ok (pos 0, slice start size content) m
  read_data-IsFile start size low inside =
      read_data_lem m p f.holds start size k (content ++ rest) (omega arith)
        (omega (arith, f.short))
        (ap (le_int (pos (start + size))) f.size ∙ le→leb (start + size) len inside)
        (ap (λ j. get_or i.din.i_block_nr j (pos 0)) first ∙ f.direct) f.there
      ∙ ap (λ bs. ok (pos 0, bs) m)
          (ap (λ j. slice j size (content ++ rest)) within
            ∙ slice-append_left start size content rest inside)
    where
      first : start / 64 ≡ 0
      first = omega arith

      within : start % 64 ≡ start
      within = omega arith

  -- The buffer that is read is printed.
  print_read :
      (start size : ℕ)
      → start < 64
      → start + size ≤ len
      → (do read ← read_data p start size; print_buffer read; pure (pos 0)) m
        ≡ ok (pos 0) (printed m (slice start size content))
  print_read start size low inside =
      then_ok _ (read_data-IsFile start size low inside)
      ∙ then_ok _ (
          print_buffer-text m (slice start size content)
            (slice-IsName start size content f.is_text))

  -- cat prints a file: of a text that is not empty and stands in the file's first block, cmd_cat's
  -- round prints the whole and a newline, returns 0 and changes nothing else, where malloc succeeds.
  pub cat_inode-IsFile : cat_inode p m ≡ ok (pos 0) (printed m content)
  unfolding cat_inode slice
  cat_inode-IsFile =
      then_ok _ (fetch-ok m p f.holds)
      ∙ rw (==_ne i.din.i_type i_dir f.is_file, f.size, ==_ne len 0 (λ e. omega (arith, f.full, e)))
          (then_ok _ (malloc-ok m f.granted)
            ∙ print_read 0 len (omega arith) (omega arith)
            ∙ ap (λ s. ok (pos 0) (printed m s)) (take-length len content refl))

  -- oread prints a part of a file: of a text in the file's first block, from an offset within it on,
  -- cmd_oread's round prints as many bytes as asked for, or as there are, and a newline, returns 0
  -- and changes nothing else, where malloc succeeds.
  pub oread_inode-IsFile :
      (offset size : ℕ)
      → offset < len
      → oread_inode p offset size m ≡ ok (pos 0) (printed m (slice offset size content))
  unfolding oread_inode
  oread_inode-IsFile offset size inside =
      then_ok _ (fetch-ok m p f.holds)
      ∙ rw
          (
            ==_ne i.din.i_type i_dir f.is_file,
            f.size,
            ==_ne len 0 (λ e. omega (arith, f.full, e)),
            lt→leb len offset inside,
          )
          (then_ok _ (malloc-ok m f.granted) ∙ cut (Bool-cases (ltb len (offset + size))))
    where
      low : offset < 64
      low = omega (arith, f.short)

      cut :
          (ltb len (offset + size) ≡ true) ⊎ (ltb len (offset + size) ≡ false)
          → (do
            read ← read_data p offset (if ltb len (offset + size) then len - offset else size)
            print_buffer read
            pure (pos 0))
              m
            ≡ ok (pos 0) (printed m (slice offset size content))
      cut (inl past) =
          ap
            (λ b.
              (do
                read ← read_data p offset (if b then len - offset else size)
                print_buffer read
                pure (pos 0))
                m)
            past
          ∙ print_read offset (len - offset) low (omega arith)
          ∙ ap (λ s. ok (pos 0) (printed m s))
              (slice-cut offset size content (omega arith)
                (omega (arith, ltb→lt len (offset + size) past)))
      cut (inr within) =
          ap
            (λ b.
              (do
                read ← read_data p offset (if b then len - offset else size)
                print_buffer read
                pure (pos 0))
                m)
            within
          ∙ print_read offset size low (ground arith)

-- The inode after it was written to from the beginning.
abbrev pub grown : Inode → Bytes → Inode
grown i content = with_size i (max_int i.din.i_size (pos (0 + length content)))

module _ {m : Machine} {inodes blocks : Bitmap} {table : Bytes} (is : Mounted m inodes blocks table)
    (p : Ptr) {i : Inode} (holds : Holds m p i) (k s : ℕ) (content block : Bytes) (inside : k < 960)
    (file : i.din.i_type ≢ i_dir) (size : i.din.i_size ≡ pos s) (grows : s ≤ length content)
    (direct : get_or i.din.i_block_nr 0 (pos 0) ≡ pos (192 + k))
    (there : get_elem? m.dev.blocks (192 + k) ≡ some block) (bytes : IsBytes block)
    (is_text : IsName content) (full : 0 < length content) (short : length content ≤ 64)
    (granted : m.mallocs ≡ []) where
  -- A file that is overwritten from its beginning holds what was written.
  pub write_data-IsFile :
      (n : Machine) × (t : Bytes) × Mounted n inodes blocks t
      × (write_data p 0 content m ≡ ok (pos 0) n)
      × IsFile n p (grown i content) k content (drop (length content) block)
  unfolding splice
  write_data-IsFile =
      let (n, t, mounted, run, written_there, here, mallocs) =
        write_data_lem is p holds 0 k content block (omega arith) (omega (arith, short)) starts
          direct inside there (name-IsBytes content is_text) bytes in
      (
        with_inode n p (grown i content),
        t,
        heap-Mounted _ mounted,
        run,
        record {
          holds = Holds-with_inode n p (grown i content) here;
          is_file = file;
          size =
              ap (λ z. max_int z (pos (0 + length content))) size
              ∙ larger s (0 + length content) (length content) (omega (arith, grows));
          direct = direct;
          there = written_there ∙ ap (λ j. some (content ++ drop j block)) whole;
          is_text = is_text;
          full = full;
          short = short;
          granted = mallocs ∙ granted;
        },
      )
    where
      starts : le_int (pos 0) i.din.i_size ≡ true
      starts = ap (le_int (pos 0)) size ∙ le→leb 0 s (omega arith)

      whole : 0 + length content ≡ length content
      whole = omega arith
