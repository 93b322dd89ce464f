-- ===== src/Tx/Laws.antt =====
-- The transaction marker as a state machine: one transaction at a time, closed by its own type.
use klee_testfs.Common.{
  ◌≡◌, refl, ap, sym, ◌≢◌, ◌↔◌, Bool, true, false, if◌then◌else◌, arith, Bool-cases, inl, inr,
}
use klee_testfs.Machine.{TxType, tx_none, Machine, assertion, ok, stop, ◌>>◌}
use klee_testfs.Tx.{eq_tx, tx_start, tx_commit}

eq_tx_iff : (s t : TxType) → (eq_tx s t ≡ true) ↔ (s ≡ t)
eq_tx_iff s t = ground arith

eq_tx_refl : (t : TxType) → eq_tx t t ≡ true
eq_tx_refl t = (eq_tx_iff t t).1 refl

eq_tx_ne : (s t : TxType) → s ≢ t → eq_tx s t ≡ false
eq_tx_ne s t h = elim (Bool-cases (eq_tx s t)) [
  | inl e ↦ absurd (h ((eq_tx_iff s t).0 e))
  | inr e ↦ e
]

abbrev pub with_tx : Machine → TxType → Machine
with_tx m t = record m { sb = record (m.sb) { tx_in_progress = t } }

commit-other :
    (m : Machine) (s t : TxType) → eq_tx s t ≡ false → tx_commit t (with_tx m s) ≡ stop assertion
unfolding tx_commit
commit-other m s t other = rw other

module _ (m : Machine) (idle : m.sb.tx_in_progress ≡ tx_none) where
  pub tx_start-ok : (t : TxType) → tx_start t m ≡ ok tt (with_tx m t)
  unfolding tx_start
  tx_start-ok t = rw idle

  idle_again : with_tx m tx_none ≡ m
  idle_again = ap (with_tx m) (sym idle)

  commit-same : (s t : TxType) → eq_tx s t ≡ true → tx_commit t (with_tx m s) ≡ ok tt m
  unfolding tx_commit
  commit-same s t same = rw same (ap (ok tt) idle_again)

  -- With no transaction in progress, testfs_tx_start of a type succeeds; testfs_tx_commit then
  -- restores the state if it is of the same type and fails its assertion if it is of another, and
  -- starting a second transaction fails an assertion.
  pub tx_start-tx_commit :
      (s t : TxType)
      → s ≢ tx_none
      → t ≢ tx_none
      → ((tx_start s >> tx_commit t) m ≡ (if eq_tx s t then ok tt m else stop assertion))
        × ((tx_start s >> tx_start t) m ≡ stop assertion)
  tx_start-tx_commit s t hs ht =
      (by_type (eq_tx s t) refl, rw (tx_start-ok s) (unfold tx_start in rw (eq_tx_ne s tx_none hs)))
    where
      by_type :
          (c : Bool)
          → eq_tx s t ≡ c
          → (tx_start s >> tx_commit t) m ≡ (if c then ok tt m else stop assertion)
      by_type true e = rw (tx_start-ok s) (commit-same s t e)
      by_type false e = rw (tx_start-ok s) (commit-other m s t e)
