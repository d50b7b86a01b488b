-- ===== src/Base/Division.antt =====
-- Division that rounds up, as the chunk counts of app/clients use it.
use Prim.Native.Nat.{ℕ, zero, suc, ◌+◌, ◌-◌, ◌*◌, ◌/◌, ◌%◌, ◌≤◌, ◌<◌, max}
use mathlib.Core.Path.{◌≡◌, sym, subst}
use native.Mathlib.Omega.{arith}
use native.Mathlib.Nat.{div-add-mod}

at_least_one : (file_size size q : ℕ) → file_size ≤ q * size → file_size ≤ max 1 q * size
at_least_one file_size size zero h = omega arith
at_least_one file_size size (suc q) h =
    let same : max 1 (suc q) ≡ suc q = omega arith in subst (λ m. file_size ≤ m * size) (sym same) h

-- The rounded-up quotient, at least one, times the divisor reaches the number.
pub ceiling_enough :
    (file_size size : ℕ) → 1 ≤ size → file_size ≤ max 1 ((file_size + size - 1) / size) * size
ceiling_enough file_size zero h = absurd (omega arith)
ceiling_enough file_size (suc c) h =
    at_least_one file_size (suc c) ((file_size + suc c - 1) / suc c) (
      enough ((file_size + suc c - 1) / suc c) ((file_size + suc c - 1) % suc c)
        (div-add-mod (file_size + suc c - 1) (suc c)) (omega arith))
  where
    enough : (q r : ℕ) → suc c * q + r ≡ file_size + suc c - 1 → r < suc c → file_size ≤ q * suc c
    enough q r e l = grind arith
