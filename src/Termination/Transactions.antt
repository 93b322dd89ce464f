-- ===== src/Termination/Transactions.antt =====
-- tx.c: a transaction that a command opens is closed when the command returns.
use klee_testfs.Common.{ℕ, ◌≡◌, refl, sym, ◌∙◌, Bool, true, false, ℤ, pos, negsuc, arith}
use klee_testfs.Machine.{
  Machine, TxType, tx_none, tx_write, tx_create, tx_rm, tx_umount, Outcome, ok, stop, M, pure,
  assert, ◌>>=◌, ◌>>◌, and_then,
}
use klee_testfs.Machine.Runs.{IsReal, Ends, Runs, mounting, SameMount}
use klee_testfs.Tx.{eq_tx, set_tx, tx_start, tx_commit}

-- The layout of the image stays, and no transaction is open afterwards.
abbrev Closed : {A : Type 0} → Machine → Outcome A → Type 0
Closed m (ok a n) = (n.sb.dsb ≡ m.sb.dsb) × (n.sb.tx_in_progress ≡ tx_none)
Closed m (stop s) = IsReal s

pub record Closes {A : Type 0} (c : M A) : Type 0 where
  pub at : (m : Machine) → Closed m (c m)

pub Closes-bind :
    {A B : Type 0} (c : M A) (k : A → M B)
    → Runs mounting c
    → ((a : A) → Closes (k a))
    → Closes (c >>= k)
unfolding mounting
Closes-bind {A = A} {B = B} c k hc hk = record { at = λ m. first m (c m) (hc.at m tt) }
  where
    second : (m n : Machine) → SameMount m n → (o : Outcome B) → Closed n o → Closed m o
    second m n s (ok b o) h = (h.0 ∙ s.dsb, h.1)
    second m n s (stop t) h = h

    first : (m : Machine) (o : Outcome A) → Ends mounting m o → Closed m (and_then o k)
    first m (ok a n) s = second m n s (k a n) ((hk a).at n)
    first m (stop s) h = h

pub Closes-pure : {A B : Type 0} (c : M A) (b : B) → Closes c → Closes (c >>= λ _. pure b)
Closes-pure {A = A} c b h = record { at = λ m. after m (c m) (h.at m) }
  where
    after : (m : Machine) (o : Outcome A) → Closed m o → Closed m (and_then o (λ _. pure b))
    after m (ok a n) s = s
    after m (stop s) h = h

pub Closes-int :
    {B : Type 0} (z : ℤ) (c d : ℕ → M B)
    → ((n : ℕ) → Closes (c n))
    → ((n : ℕ) → Closes (d n))
    → Closes (elim z [ pos n ↦ c n | negsuc n ↦ d n ])
Closes-int (pos n) c d hc hd = hc n
Closes-int (negsuc n) c d hc hd = hd n

pub Closes-commit : (t : TxType) → Closes (tx_commit t)
unfolding tx_commit
Closes-commit t = record { at = λ m. asserted m (eq_tx m.sb.tx_in_progress t) }
  where
    asserted : (m : Machine) (b : Bool) → Closed m (and_then (assert b m) (λ _. set_tx tx_none))
    asserted m true = (refl, refl)
    asserted m false = tt

none_open : (t : TxType) → eq_tx t tx_none ≡ true → t ≡ tx_none
none_open tx_none h = refl
none_open tx_write h = ground arith
none_open tx_create h = ground arith
none_open tx_rm h = ground arith
none_open tx_umount h = ground arith

-- What a transaction encloses.
pub Runs-tx : {A : Type 0} (t : TxType) (k : M A) → Closes k → Runs mounting (tx_start t >> k)
unfolding tx_start mounting
Runs-tx {A = A} t k h = record {
  at = λ m _. started m (eq_tx m.sb.tx_in_progress tx_none) (none_open m.sb.tx_in_progress);
}
  where
    closed :
        (m n : Machine)
        → n.sb.dsb ≡ m.sb.dsb
        → m.sb.tx_in_progress ≡ tx_none
        → (o : Outcome A) → Closed n o
        → Ends mounting m o
    closed m n same idle (ok a o) h = record { dsb = h.0 ∙ same; tx_in_progress = h.1 ∙ sym idle }
    closed m n same idle (stop s) h = h

    started :
        (m : Machine) (b : Bool)
        → (b ≡ true → m.sb.tx_in_progress ≡ tx_none)
        → Ends mounting m (and_then (and_then (assert b m) (λ _. set_tx t)) (λ _. k))
    started m true idle =
        let n = record m { sb = record (m.sb) { tx_in_progress = t } } in
        closed m n refl (idle refl) (k n) (h.at n)
    started m false idle = tt
