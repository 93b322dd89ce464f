-- ===== src/Lib.antt =====
-- testfs: a small file system in a file, with checksums on its data blocks and commands over it.
--
-- The parts of the program, and the files that model them:
--   bitmap.c     Bitmap: arrays of bits. An operation that may fail an assertion returns an option.
--   block.c      Block: blocks of 64 bytes, read from and written to the image.
--   csum.c       Csum: one checksum for each data block, in memory and in the table on disk.
--   tx.c         Tx: the marker of the transaction in progress.
--   super.c      Super: the free maps of inodes and blocks, written through to disk (Freemap), making,
--                mounting and closing a file system (Mount), and checkfs (Check). Mounted says what
--                holds of a mounted file system: the image agrees with the maps and checksums. Empty is
--                one with nothing in it.
--   inode.c      Inode: inodes in memory and on disk (Cache), their direct and indirect blocks
--                (Blocks), and their contents (Data).
--   dir.c        Dir: entries read (Entry), added and removed (Change), paths and cd (Path), create,
--                mkdir and rm (Create), and pwd, ls, lsr and stat (Listing). Contents is what a
--                directory of one block stands for: a list of names with their inode numbers, which
--                the functions on entries search and change.
--   file.c       File: cat, write, owrite and oread, and catr (Catr). Contents is what they print of a
--                file of one block, and Rounds is write followed by cat.
--   testfs.c, testfs_single_argument.c
--                Command: the command table, the line split into arguments, handle_command and the
--                two programs. They differ in the bytes that KLEE makes symbolic, a parameter.
--   mktestfs.c   Mktestfs: the sequence of calls that makes an image.
-- Termination goes through the same parts and shows that no loop of the model runs out of rounds.
-- Common, Bytes and Text hold numbers, lists, int, the bytes of words and C strings.
--
-- Machine is the state that the program's functions share: the image and its stream, the superblock,
-- the heap of struct inode, where a pointer is an index, and the hash table of inodes. A function of
-- the source without its prefix testfs_ is a function of that state, which returns a value and the
-- new state, or stops: at a failed assertion, at EXIT, or at behaviour that C leaves undefined.
-- Which calls of malloc succeed is part of the state, and so are the time and hash_int of list.h.
--
-- Loops over a known count are recursion on what is left of it. Those whose end depends on what is
-- read run on fuel, which each caller sets above what the loop can use: read_loop and write_loop
-- copy a byte in each round but the last, an entry of a directory has at least eight bytes, and
-- checkfs marks a bit of the inode map before it goes one level down.
--
-- Offsets and block numbers within a file are natural numbers; where a sum of an offset and a size
-- or a rounded size leaves the range of int, which only a damaged inode or entry brings about, the
-- behaviour is undefined. A checksum is kept as its 32-bit pattern. Opening, seeking in and writing
-- to the image succeed; a read past its end is EXIT.
--
-- pwd, lsr and catr recur along the tree of directories and run on a fixed fuel, max_depth, which a
-- tree without a cycle of fewer levels does not use up: the source recurs forever on a cycle, so no
-- theorem says that it is enough.
--
-- Not modelled: list.h, a copy of the kernel's lists, for which List stands; the code under KLEE in
-- block.c; the options of the programs, since getopt finds none in what they are given.
pub mod Common
pub mod Bytes
pub mod Text
pub mod Bitmap
pub mod Machine
pub mod Block
pub mod Tx
pub mod Csum
pub mod Inode
pub mod Super
pub mod Dir
pub mod File
pub mod Command
pub mod Mktestfs
pub mod Termination
mod Tests
