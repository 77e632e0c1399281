-- ===== src/Base/Pigeonhole.antt =====
-- Distinct values below a bound are no more than the bound.
use Prim.Native.Nat.{ℕ, zero, suc, ◌≤◌, ◌<◌}
use mathlib.Core.Path.{◌≡◌}
use native.Mathlib.Omega.{arith}
use liblpm.Base.Tests.{◌==◌, if◌then◌else◌}

pub injection-le :
    (n m : ℕ) (f : ℕ → ℕ)
    → ((i : ℕ) → i < n → f i < m)
    → ((i j : ℕ) → i < n → j < n → f i ≡ f j → i ≡ j)
    → n ≤ m
injection-le zero m f bound inj = omega arith
injection-le (suc n) zero f bound inj = absurd (omega (arith, bound n (omega arith)))
injection-le (suc n) (suc m) f bound inj =
    let rest : n ≤ m = injection-le n m moved moved_bound moved_inj in omega arith
  where
    -- The value `m` gives way to the one that falls out.
    moved : ℕ → ℕ
    moved i = if f i == m then f n else f i

    moved_bound : (i : ℕ) → i < n → moved i < m
    moved_bound i h =
        ground
          (arith, bound i (omega arith), bound n (omega arith), inj i n (omega arith) (omega arith))

    moved_inj : (i j : ℕ) → i < n → j < n → moved i ≡ moved j → i ≡ j
    moved_inj i j hi hj e = ground (
      arith,
      inj i j (omega arith) (omega arith),
      inj i n (omega arith) (omega arith),
      inj j n (omega arith) (omega arith),
    )
