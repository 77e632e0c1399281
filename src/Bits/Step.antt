-- ===== src/Bits/Step.antt =====
-- What `&` and `|` do to the lowest bit. The native operations spend one unit of
-- fuel on each bit; spare fuel changes nothing, so both obey one equation.
use Prim.Native.Nat.{min, max, digits, bitwise, bit_and-bitwise, bit_or-bitwise}
use liblpm.Base.{ℕ, zero, suc, ◌+◌, ◌-◌, ◌*◌, ◌/◌, ◌%◌, ◌≤◌, bit_and, bit_or, ◌≡◌, refl, sym, arith}

module _ (rest : ℕ → ℕ) (bit : ℕ → ℕ → ℕ) where
  digits-zero : (fuel y : ℕ) → digits rest bit fuel 0 y ≡ rest y
  digits-zero zero y = refl
  digits-zero (suc fuel) y = refl

  spare_fuel :
      (fuel spare x y : ℕ)
      → x ≤ fuel
      → digits rest bit (fuel + spare) x y ≡ digits rest bit fuel x y
  spare_fuel fuel spare zero y enough = rw (digits-zero (fuel + spare) y, digits-zero fuel y)
  spare_fuel (suc fuel) spare (suc x) y enough =
      let one_more : suc fuel + spare ≡ suc (fuel + spare) = omega arith in
      rw (one_more, spare_fuel fuel spare (suc x / 2) (y / 2) (omega arith))
  spare_fuel zero spare (suc x) y enough = absurd (omega arith)

  -- A nonzero number has at least as much fuel as the number without its lowest bit needs.
  halves : (x y : ℕ) → digits rest bit x (suc x / 2) y ≡ bitwise rest bit (suc x / 2) y
  halves x y =
      let left : (suc x / 2) + (x - suc x / 2) ≡ x = omega arith in
      let more = spare_fuel (suc x / 2) (x - suc x / 2) (suc x / 2) y (omega arith) in
      rw (sym more, left)

pub bit_and_step : (x y : ℕ) → bit_and x y ≡ bit_and (x / 2) (y / 2) * 2 + min (x % 2) (y % 2)
bit_and_step (suc x) y = simp bit_and-bitwise (omega (arith, halves (λ y. 0) min x (y / 2)))
bit_and_step zero y = simp bit_and-bitwise (omega arith)

pub bit_or_step : (x y : ℕ) → bit_or x y ≡ bit_or (x / 2) (y / 2) * 2 + max (x % 2) (y % 2)
bit_or_step (suc x) y = simp bit_or-bitwise (omega (arith, halves (λ y. y) max x (y / 2)))
bit_or_step zero y = simp bit_or-bitwise (omega arith)
