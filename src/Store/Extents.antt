-- ===== src/Store/Extents.antt =====
-- The bounds of the vectors of a write.
use eblob.Base.{
  ℕ, ◌+◌, ◌-◌, ◌≤◌, ◌<◌, ◌^◌, Bool, true, false, ◌==◌, ==_iff, List, [], ◌∷◌, All, ◌≡◌, ◌∙◌, inl,
  inr, arith, Bool-cases,
}
use eblob.Store.Control.{Iovec, size_of, Bounds, widen, widen_all, iovec_get_bounds}

-- A vector that ends before 2^64.
abbrev pub IsShort : Iovec → Type 0
IsShort iov = iov.offset + size_of iov < 2 ^ 64

abbrev pub Covers : Bounds → Iovec → Type 0
Covers b iov = (b.min ≤ iov.offset) × (iov.offset + size_of iov ≤ b.max)

-- The bytes of all vectors.
abbrev pub total : List Iovec → ℕ
total [] = 0
total (iov ∷ iovs) = size_of iov + total iovs

-- A round of the loop.
widen_lem :
    (b : Bounds) (iov : Iovec)
    → IsShort iov
    → ((widen b iov).min ≤ b.min)
      × (b.max ≤ (widen b iov).max)
      × ((widen b iov).min ≤ iov.offset)
      × (iov.offset + size_of iov ≤ (widen b iov).max)
unfolding widen
widen_lem b iov h = (ground (arith, h), ground (arith, h), ground (arith, h), ground (arith, h))

widen-contiguous :
    (b : Bounds) (iov : Iovec)
    → IsShort iov
    → (widen b iov).contiguous ≡ true
    → (b.contiguous ≡ true) × ((widen b iov).max ≡ b.max + size_of iov)
unfolding widen
widen-contiguous b iov h e = elim (Bool-cases (iov.offset == b.max)) [
  | inr apart ↦ absurd (never (rw apart at e))
  | inl meets ↦
      let same : iov.offset ≡ b.max = (==_iff iov.offset b.max).0 meets in
      (rw meets at e, ground (arith, h, same))
]
  where
    never : Path Bool false true → ⊥
    never p = cc

widen_all_grows :
    (iovs : List Iovec) (b : Bounds)
    → All IsShort iovs
    → ((widen_all b iovs).min ≤ b.min) × (b.max ≤ (widen_all b iovs).max)
unfolding widen_all
widen_all_grows [] b h = (omega arith, omega arith)
widen_all_grows (iov ∷ iovs) b h =
    let step = widen_lem b iov h.0 in
    let rest = widen_all_grows iovs (widen b iov) h.1 in
    (omega (arith, step.0, rest.0), omega (arith, step.1, rest.1))

widen_all-Covers :
    (iovs : List Iovec) (b : Bounds) → All IsShort iovs → All (Covers (widen_all b iovs)) iovs
unfolding widen_all
widen_all-Covers [] b h = tt
widen_all-Covers (iov ∷ iovs) b h =
    let step = widen_lem b iov h.0 in
    let rest = widen_all_grows iovs (widen b iov) h.1 in
    (
      (omega (arith, step.2, rest.0), omega (arith, step.3, rest.1)),
      widen_all-Covers iovs (widen b iov) h.1,
    )

widen_all-contiguous :
    (iovs : List Iovec) (b : Bounds)
    → All IsShort iovs
    → (widen_all b iovs).contiguous ≡ true
    → (b.contiguous ≡ true) × ((widen_all b iovs).max ≡ b.max + total iovs)
unfolding widen_all
widen_all-contiguous [] b h e = (e, omega arith)
widen_all-contiguous (iov ∷ iovs) b h e =
    let rest = widen_all-contiguous iovs (widen b iov) h.1 e in
    let step = widen-contiguous b iov h.0 rest.0 in (step.0, omega (arith, step.1, rest.1))

-- Every vector lies within the bounds, and where they are said to be contiguous the upper bound is
-- the number of all their bytes, so that nothing before it is left as it was; if each vector ends
-- before 2^64.
pub iovec_get_bounds_lem :
    (iovs : List Iovec)
    → All IsShort iovs
    → All (Covers (iovec_get_bounds iovs)) iovs
      × ((iovec_get_bounds iovs).contiguous ≡ true → (iovec_get_bounds iovs).max ≡ total iovs)
unfolding iovec_get_bounds
iovec_get_bounds_lem iovs h =
    let start : Bounds = record { min = 2 ^ 64 - 1; max = 0; contiguous = true } in
    (widen_all-Covers iovs start h, λ e. (widen_all-contiguous iovs start h e).1 ∙ omega arith)
