-- ===== src/Tx.antt =====
-- tx.c: the transaction marker of the superblock.
pub mod Laws
use klee_testfs.Common.{Bool, true, false}
use klee_testfs.Machine.{
  TxType, tx_none, tx_write, tx_create, tx_rm, tx_umount, SuperBlock, Machine, M, ok, assert, ◌>>=◌,
  ◌>>◌, get, put,
}

abbrev pub eq_tx : TxType → TxType → Bool
eq_tx tx_none tx_none = true
eq_tx tx_write tx_write = true
eq_tx tx_create tx_create = true
eq_tx tx_rm tx_rm = true
eq_tx tx_umount tx_umount = true
eq_tx _ _ = false

abbrev pub set_tx : TxType → M (Unit {0})
set_tx t m = ok tt (record m { sb = record (m.sb) { tx_in_progress = t } })

unfoldable pub tx_start : TxType → M (Unit {0})
tx_start type = do m ← get; assert (eq_tx m.sb.tx_in_progress tx_none); set_tx type

unfoldable pub tx_commit : TxType → M (Unit {0})
tx_commit type = do m ← get; assert (eq_tx m.sb.tx_in_progress type); set_tx tx_none
