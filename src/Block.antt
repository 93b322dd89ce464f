-- ===== src/Block.antt =====
-- block.c: whole blocks to and from the device, over a stream with a position. Out of range, a read
-- ends the program by EXIT, and a write extends the image by zeros, as fseek and fwrite do.
-- The KLEE variant of read_blocks is compiled out there.
pub mod Laws
pub mod Reads
use klee_testfs.Common.{
  ℕ, zero, suc, ◌+◌, ◌*◌, Option, none, some, List, [], ◌∷◌, ◌++◌, ℤ, pos, negsuc, get_elem?,
  replicate, slice, ◌+ℤ◌,
}
use klee_testfs.Bytes.{Bytes}
use klee_testfs.Machine.{
  Device, Machine, M, ok, exited, pure, ◌>>=◌, ◌>>◌, abort, get, put, expect, block_size,
}

-- static char zero[BLOCK_SIZE]
abbrev pub zero_block : Bytes
zero_block = replicate block_size 0

unfoldable pub put_block : List Bytes → ℕ → Bytes → List Bytes
put_block [] zero b = b ∷ []
put_block [] (suc i) b = zero_block ∷ put_block [] i b
put_block (x ∷ xs) zero b = b ∷ xs
put_block (x ∷ xs) (suc i) b = x ∷ put_block xs i b

abbrev pub ftell : M ℕ
ftell m = ok m.dev.position m

-- fseek(dev, start * BLOCK_SIZE, SEEK_SET), which fails before the start of the file.
abbrev pub fseek : ℤ → M (Unit {0})
fseek (pos start) m = ok tt (record m { dev = record (m.dev) { position = start } })
fseek (negsuc n) m = abort exited m

-- fread of one block: EXIT at the end of the file.
unfoldable pub fread_block : M Bytes
fread_block m = elim (get_elem? m.dev.blocks m.dev.position) [
  | none ↦ abort exited m
  | some b ↦ ok b (record m { dev = record (m.dev) { position = m.dev.position + 1 } })
]

unfoldable pub fread : ℕ → M Bytes
fread zero = pure []
fread (suc nr) = do b ← fread_block; rest ← fread nr; pure (b ++ rest)

unfoldable pub fwrite_block : Bytes → M (Unit {0})
fwrite_block b m = ok tt (record m {
  dev = record { blocks = put_block m.dev.blocks m.dev.position b; position = m.dev.position + 1 };
})

-- The block `i` of the buffer, and `nr` more from there.
unfoldable pub fwrite_from : Bytes → ℕ → ℕ → M (Unit {0})
fwrite_from buf i zero = pure tt
fwrite_from buf i (suc nr) =
    fwrite_block (slice (i * block_size) block_size buf) >> fwrite_from buf (i + 1) nr

unfoldable pub write_blocks : Bytes → ℤ → ℕ → M (Unit {0})
write_blocks blocks start nr = do p ← ftell; fseek start; fwrite_from blocks 0 nr; fseek (pos p)

-- The loop of zero_blocks at `start`, with `nr` rounds to go.
unfoldable pub zero_blocks : ℤ → ℕ → M (Unit {0})
zero_blocks start zero = pure tt
zero_blocks start (suc nr) = write_blocks zero_block start 1 >> zero_blocks (start +ℤ pos 1) nr

unfoldable pub read_blocks : ℤ → ℕ → M Bytes
read_blocks start nr = do p ← ftell; fseek start; blocks ← fread nr; fseek (pos p); pure blocks
