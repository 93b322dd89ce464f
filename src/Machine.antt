-- ===== src/Machine.antt =====
-- The state of the program and the commands over it: what super.h, inode.h, inode.c and tx.h
-- declare, the disk image behind `sb->dev`, the heap of `struct inode`, and the hash table of
-- inode.c. A command is a function of the state; it returns a value with the new state, or stops.
pub mod Run
pub mod Runs
use klee_testfs.Common.{
  ℕ, zero, suc, ◌+◌, Bool, true, false, Option, none, some, List, [], ◌∷◌, ◌++◌, ℤ, pos, get_elem?,
  set, replicate, length,
}
use klee_testfs.Bytes.{Bytes}
use klee_testfs.Bitmap.{Bitmap}

-- testfs.h, in blocks.
abbrev pub block_size : ℕ
block_size = 64

abbrev pub super_block_size : ℕ
super_block_size = 1

abbrev pub inode_freemap_size : ℕ
inode_freemap_size = 1

abbrev pub block_freemap_size : ℕ
block_freemap_size = 2

abbrev pub csum_table_size : ℕ
csum_table_size = 60

abbrev pub nr_inode_blocks : ℕ
nr_inode_blocks = 128

abbrev pub nr_data_blocks : ℕ
nr_data_blocks = 512

-- errno.h
abbrev pub enoent : ℕ
enoent = 2

abbrev pub enomem : ℕ
enomem = 12

abbrev pub eexist : ℕ
eexist = 17

abbrev pub enotdir : ℕ
enotdir = 20

abbrev pub eisdir : ℕ
eisdir = 21

abbrev pub einval : ℕ
einval = 22

abbrev pub efbig : ℕ
efbig = 27

abbrev pub enospc : ℕ
enospc = 28

abbrev pub enotempty : ℕ
enotempty = 39

pub data TxType : Type 0 where
  tx_none tx_write tx_create tx_rm tx_umount : TxType

pub record DsuperBlock : Type 0 where
  pub inode_freemap_start : ℤ
  pub block_freemap_start : ℤ
  pub csum_table_start : ℤ
  pub inode_blocks_start : ℤ
  pub data_blocks_start : ℤ
  pub modification_time : ℕ

-- `none` is a NULL pointer. The stream `dev` stands beside it in the state.
pub record SuperBlock : Type 0 where
  pub dsb : DsuperBlock
  pub inode_freemap : Option Bitmap
  pub block_freemap : Option Bitmap
  pub tx_in_progress : TxType
  pub csum_table : Option Bytes

-- The type of an inode is the number that the disk holds: 0 none, 1 file, 2 directory.
abbrev pub i_none : ℕ
i_none = 0

abbrev pub i_file : ℕ
i_file = 1

abbrev pub i_dir : ℕ
i_dir = 2

pub record Dinode : Type 0 where
  pub i_type : ℕ
  pub i_size : ℤ
  pub i_mod_time : ℤ
  pub i_block_nr : List ℤ
  pub i_indirect : ℤ

-- `dirty` is I_FLAGS_DIRTY, the only flag; `din` is the field `in`. There is one superblock at a
-- time, so the field `sb` is left out.
pub record Inode : Type 0 where
  pub dirty : Bool
  pub din : Dinode
  pub i_nr : ℕ
  pub i_count : ℕ

abbrev pub Ptr : Type 0
Ptr = ℕ

-- The image as blocks. The program seeks to multiples of BLOCK_SIZE only, so `position` counts
-- blocks.
pub record Device : Type 0 where
  pub blocks : List Bytes
  pub position : ℕ

-- What is printed: literal text, numbers printed by %d, and the text of an error number.
pub data Output : Type 0 where
  text : Bytes → Output
  number : ℤ → Output
  strerror : ℕ → Output

-- `mallocs` says which of the next allocations succeed (all do, when it is used up); `time` is what
-- time(NULL) returns and `hash_int` is the function of list.h.
pub record Machine : Type 0 where
  pub dev : Device
  pub sb : SuperBlock
  pub heap : List (Option Inode)
  pub hash_table : Option (List (List Ptr))
  pub mallocs : List Bool
  pub stdout : List Output
  pub time : ℕ
  pub hash_int : ℕ → ℕ → ℕ

-- A failed assertion, EXIT, behaviour that C leaves undefined, and the end of a model's fuel.
pub data Stop : Type 0 where
  assertion exited undefined out_of_fuel : Stop

pub data Outcome (A : Type 0) : Type 0 where
  ok : A → Machine → Outcome A
  stop : Stop → Outcome A

abbrev pub M : Type 0 → Type 0
M A = Machine → Outcome A

abbrev pub pure : {A : Type 0} → A → M A
pure = ok

module _ {A B : Type 0} where
  abbrev pub and_then : Outcome A → (A → M B) → Outcome B
  and_then (ok a m) k = k a m
  and_then (stop s) k = stop s

  infixl 5 ◌>>=◌ ◌>>◌
  abbrev pub ◌>>=◌ : M A → (A → M B) → M B
  c >>= k = λ m. and_then (c m) k

  abbrev pub ◌>>◌ : M A → M B → M B
  c >> d = c >>= λ _. d

abbrev pub abort : {A : Type 0} → Stop → M A
abort s m = stop s

abbrev pub get : M Machine
get m = ok m m

abbrev pub put : Machine → M (Unit {0})
put m' m = ok tt m'

abbrev pub assert : Bool → M (Unit {0})
assert true = pure tt
assert false = abort assertion

-- A value, or the stop that stands for its absence.
abbrev pub expect : {A : Type 0} → Stop → Option A → M A
expect s none = abort s
expect s (some a) = pure a

-- Whether the next allocation succeeds.
unfoldable pub malloc : M Bool
malloc m = elim m.mallocs [
  | [] ↦ ok true m
  | granted ∷ rest ↦ ok granted (record m { mallocs = rest })
]

unfoldable pub printf : List Output → M (Unit {0})
printf out m = ok tt (record m { stdout = m.stdout ++ out })

-- *in; a freed or foreign address is undefined behaviour.
unfoldable pub live : Option (Option Inode) → Option Inode
live none = none
live (some cell) = cell

unfoldable pub fetch : Ptr → M Inode
fetch p m = expect undefined (live (get_elem? m.heap p)) m

-- *in = i, for an address that holds an inode.
unfoldable pub store : Ptr → Inode → M (Unit {0})
store p i m = ok tt (record m { heap = set m.heap p (some i) })

unfoldable pub free_inode : Ptr → M (Unit {0})
free_inode p m = ok tt (record m { heap = set m.heap p none })
