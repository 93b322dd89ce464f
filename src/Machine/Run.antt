-- ===== src/Machine/Run.antt =====
-- Runs that return: how a sequence of commands is taken apart and put together.
use klee_testfs.Common.{◌≡◌, ap, Bool, true, Option, some}
use klee_testfs.Machine.{Machine, Stop, Outcome, ok, M, and_then, expect, assert}

-- The first command's result is known.
pub then_ok :
    {A B : Type 0} {r : Outcome A} (k : A → M B) {a : A} {m : Machine}
    → r ≡ ok a m
    → and_then r k ≡ k a m
then_ok k e = ap (λ o. and_then o k) e

pub expect_then :
    {A B : Type 0} (s : Stop) {o : Option A} (k : A → M B) {a : A} (m : Machine)
    → o ≡ some a
    → and_then (expect s o m) k ≡ k a m
expect_then s k m e = ap (λ p. and_then (expect s p m) k) e

pub assert_then :
    {B : Type 0} {b : Bool} (k : Unit {0} → M B) (m : Machine)
    → b ≡ true
    → and_then (assert b m) k ≡ k tt m
assert_then k m e = ap (λ c. and_then (assert c m) k) e
