-- ===== src/Rib.antt =====
-- The routing table that the library stands for: routes in the order of their arrival, and the
-- longest of those that cover an address.
pub mod Sorted
use liblpm.Base.{
  ℕ, ◌-◌, ◌/◌, ◌^◌, ◌≤◌, Bool, true, ◌==◌, leb, if◌then◌else◌, Option, none, some, List, [], ◌∷◌,
}

-- A prefix is the first `len` bits of an address `value`.
pub record Route : Type 0 where
  pub value : ℕ
  pub len : ℕ
  pub next_hop : ℕ

-- The address agrees with the route in the first `len` of its `w` bits.
abbrev pub covers : ℕ → Route → ℕ → Bool
covers w r a = a / 2 ^ (w - r.len) == r.value / 2 ^ (w - r.len)

-- The longer of a newer and an older route; of two equally long ones the newer.
abbrev pub prefer : Route → Option Route → Route
prefer newer none = newer
prefer newer (some older) = if leb older.len newer.len then newer else older

-- The longest route that covers `a`, of a history with the newest route first.
unfoldable pub longest : ℕ → List Route → ℕ → Option Route
longest w [] a = none
longest w (r ∷ older) a =
    if covers w r a then some (prefer r (longest w older a)) else longest w older a
