-- ===== src/Worker/Backoff.antt =====
-- The backoff of hermes/internal/worker/worker.go.
use Prim.Native.Nat.{min}
use native.Mathlib.Nat.{pow-suc}
use hermes_forge_public.Prelude.{ℕ, zero, suc, ◌^◌, ◌-◌, ◌≤◌, ◌≡◌, refl, arith}
use hermes_forge_public.Worker.{error_backoff}

pow_ge : (k : ℕ) → 32 ≤ 2 ^ suc (suc (suc (suc (suc k))))
pow_ge zero = omega arith
pow_ge (suc k) = omega (arith, pow_ge k, pow-suc 2 (suc (suc (suc (suc (suc k))))))

-- After k + 1 errors in a row the worker waits 2 ^ k seconds, but never more than 30.
pub error_backoff-eq-min : (k : ℕ) → error_backoff (suc k) ≡ min (2 ^ k) 30
unfolding error_backoff
error_backoff-eq-min zero = refl
error_backoff-eq-min (suc zero) = refl
error_backoff-eq-min (suc (suc zero)) = refl
error_backoff-eq-min (suc (suc (suc zero))) = refl
error_backoff-eq-min (suc (suc (suc (suc zero)))) = refl
error_backoff-eq-min (suc (suc (suc (suc (suc k))))) =
    let n = suc (suc (suc (suc (suc k)))) in
    let capped : min (suc n - 1) 5 ≡ 5 = omega arith in rw capped (omega (arith, pow_ge k))
