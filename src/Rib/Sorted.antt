-- ===== src/Rib/Sorted.antt =====
-- Histories in which no route is longer than a later one.
use liblpm.Base.{
  ℕ, ◌≤◌, ◌≡◌, refl, arith, if◌then◌else◌, Option, none, some, Bool-cases, inl, inr, List, [], ◌∷◌,
}
use liblpm.Rib.{Route, covers, prefer, longest}

-- No route of the history is longer than `n`.
abbrev pub AllUpTo : ℕ → List Route → Type 0
AllUpTo n [] = Unit
AllUpTo n (r ∷ older) = (r.len ≤ n) × AllUpTo n older

abbrev pub IsSorted : List Route → Type 0
IsSorted [] = Unit
IsSorted (r ∷ older) = AllUpTo r.len older × IsSorted older

pub AllUpTo-mono : (m n : ℕ) (h : List Route) → m ≤ n → AllUpTo m h → AllUpTo n h
AllUpTo-mono m n [] le all = tt
AllUpTo-mono m n (r ∷ older) le all = (omega arith, AllUpTo-mono m n older le all.1)

abbrev len_of : Option Route → ℕ
len_of none = 0
len_of (some s) = s.len

prefer-le : (n : ℕ) (r : Route) (o : Option Route) → r.len ≤ n → len_of o ≤ n → (prefer r o).len ≤ n
prefer-le n r none h k = h
prefer-le n r (some s) h k = ground arith

prefer_newer : (r : Route) (o : Option Route) → len_of o ≤ r.len → prefer r o ≡ r
prefer_newer r none h = refl
prefer_newer r (some s) h = ground arith

longest-le : (w n a : ℕ) (h : List Route) → AllUpTo n h → len_of (longest w h a) ≤ n
unfolding longest
longest-le w n a [] all = omega arith
longest-le w n a (r ∷ older) all = elim (Bool-cases (covers w r a)) [
  | inl on ↦ rw on (prefer-le n r (longest w older a) all.0 (longest-le w n a older all.1))
  | inr off ↦ rw off (longest-le w n a older all.1)
]

-- In a sorted history the newest route that covers an address is the longest.
pub longest-cons :
    (w a : ℕ) (r : Route) (older : List Route)
    → AllUpTo r.len older
    → longest w (r ∷ older) a ≡ (if covers w r a then some r else longest w older a)
unfolding longest
longest-cons w a r older all =
    rw (prefer_newer r (longest w older a) (longest-le w r.len a older all))
