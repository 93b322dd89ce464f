-- ===== src/Termination.antt =====
-- Commands that never run out of fuel: every loop of the model is given enough rounds, so that the
-- only ends of a command are those of the program. The parts of the program one after the other.
pub mod Walk
pub mod Fetch
pub mod Listing
pub mod Blocks
pub mod Check
pub mod Checkfs
pub mod Report
pub mod Reads
pub mod Disk
pub mod Inodes
pub mod Next
pub mod Entries
pub mod Dirs
pub mod Paths
pub mod Transactions
pub mod Files
pub mod Creation
pub mod Commands
