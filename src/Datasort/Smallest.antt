-- ===== src/Datasort/Smallest.antt =====
-- The search for the smallest entry of the chunks.
use Prim.Native.Nat.Ordering.{lt, eq, gt}
use eblob.Base.{
  ℕ, zero, suc, ◌+◌, ◌≤◌, Ordering, Option, none, some, some_inj, Ordering-cases, List, [], ◌∷◌,
  ◌++◌, length, All, ◌≡◌, refl, sym, ap, subst, ◌∙◌, ◌⊎◌, inl, inr, arith,
}
use eblob.Key.Order.{key_cmp, key_cmp-IsOrder}
use eblob.Record.{DiskControl}
use eblob.Index.{disk_control_sort}
use eblob.Datasort.{Chunk, nth, current, better, smallest_loop}

-- The first header's key is not the larger one.
abbrev pub Le : DiskControl → DiskControl → Type 0
Le a b = key_cmp a.key b.key ≡ gt → ⊥

pub Le_trans : (a b c : DiskControl) → Le a b → Le b c → Le a c
Le_trans a b c h k above = elim (Ordering-cases (key_cmp a.key b.key)) [
  | inr (inr e) ↦ h e
  | inr (inl e) ↦
      let same : a.key ≡ b.key = key_cmp-IsOrder.eq_of_cmp a.key b.key e in
      k (subst (λ x. key_cmp x c.key ≡ gt) same above)
  | inl e ↦ elim (Ordering-cases (key_cmp b.key c.key)) [
    | inr (inr e') ↦ k e'
    | inr (inl e') ↦
        let same : b.key ≡ c.key = key_cmp-IsOrder.eq_of_cmp b.key c.key e' in
        h (subst (λ x. key_cmp a.key x ≡ gt) (sym same) above)
    | inl e' ↦ apart (key_cmp-IsOrder.lt_trans a.key b.key c.key e e') above
  ]
]
  where
    apart : {o : Ordering} → o ≡ lt → o ≡ gt → ⊥
    apart p q = cc

Le_of_gt : (a b : DiskControl) → key_cmp a.key b.key ≡ gt → Le b a
Le_of_gt a b h k = cc (key_cmp-IsOrder.swap a.key b.key, h, k)

Le_refl : (a : DiskControl) → Le a a
Le_refl a h = cc (key_cmp-IsOrder.same a.key, h)

abbrev pub IsSorted : List DiskControl → Type 0
IsSorted [] = Unit
IsSorted (d ∷ ds) = All (Le d) ds × IsSorted ds

abbrev pub skip : ℕ → List DiskControl → List DiskControl
skip zero ds = ds
skip (suc n) [] = []
skip (suc n) (d ∷ ds) = skip n ds

-- What is left of a chunk, and of all of them.
abbrev pub left : Chunk → List DiskControl
left c = skip c.merge_count c.index

abbrev pub entries : List Chunk → List DiskControl
entries [] = []
entries (c ∷ cs) = left c ++ entries cs

-- The entry of a chunk at a place.
abbrev pub At : ℕ → DiskControl → List Chunk → Type 0
At i dc [] = ⊥
At zero dc (c ∷ cs) = current c ≡ some dc
At (suc i) dc (c ∷ cs) = At i dc cs

abbrev pub Above : DiskControl → Option DiskControl → Type 0
Above dc o = (d : DiskControl) → o ≡ some d → Le dc d

abbrev pub Is : Option (ℕ × DiskControl) → ℕ → DiskControl → Type 0
Is best p dc = best ≡ some (p, dc)

abbrev pub AboveBest : DiskControl → Option (ℕ × DiskControl) → Type 0
AboveBest dc best = (j : ℕ) (d : DiskControl) → best ≡ some (j, d) → Le dc d

pub nth-skip :
    (n : ℕ) (ds : List DiskControl) (d : DiskControl)
    → nth n ds ≡ some d
    → skip n ds ≡ d ∷ skip (suc n) ds
nth-skip zero [] d h = absurd cc
nth-skip zero (x ∷ xs) d h = ap (λ y. y ∷ xs) (some_inj h)
nth-skip (suc n) [] d h = absurd cc
nth-skip (suc n) (x ∷ xs) d h = nth-skip n xs d h

pub nth-none : (n : ℕ) (ds : List DiskControl) → nth n ds ≡ none → skip n ds ≡ []
nth-none zero [] h = refl
nth-none zero (x ∷ xs) h = absurd cc
nth-none (suc n) [] h = refl
nth-none (suc n) (x ∷ xs) h = nth-none n xs h

pub length-skip : (n : ℕ) (ds : List DiskControl) → length (skip n ds) ≤ length ds
length-skip zero ds = omega arith
length-skip (suc n) [] = omega arith
length-skip (suc n) (x ∷ xs) = omega (arith, length-skip n xs)

-- One round of the search for the smallest entry.
better_lem :
    (i p : ℕ) (best : Option (ℕ × DiskControl)) (o : Option DiskControl) (dc : DiskControl)
    → ((better i best o ≡ some (p, dc)) → (best ≡ some (p, dc)) ⊎ ((p ≡ i) × (o ≡ some dc)))
      × (AboveBest dc (better i best o) → AboveBest dc best × Above dc o)
unfolding better disk_control_sort
better_lem i p best none dc = (λ h. inl h, λ h. (h, λ d e. absurd (cc e)))
better_lem i p none (some d) dc = (
  λ h. let e : (i, d) ≡ (p, dc) = some_inj h in inr (sym (ap (λ q. q.0) e), ap (λ q. some q.1) e),
  λ h. (λ j x e. absurd (cc e), λ x e. h i x (ap (λ q. some (i, q)) (some_inj e))),
)
better_lem i p (some (j, s)) (some d) dc = elim (Ordering-cases (key_cmp s.key d.key)) [
  | inl e ↦ rw (better, e) (kept (λ k. no_lt (sym e ∙ k)))
  | inr (inl e) ↦ rw (better, e) (kept (λ k. no_eq (sym e ∙ k)))
  | inr (inr e) ↦
      rw (better, e)
        (
          λ h.
              let q : (i, d) ≡ (p, dc) = some_inj h in
              inr (sym (ap (λ x. x.0) q), ap (λ x. some x.1) q),
          λ h. (
            λ k x q.
                subst (Le dc) (ap (λ y. y.1) (some_inj q))
                  (Le_trans dc d s (h i d refl) (Le_of_gt s d e)),
            λ x q. subst (Le dc) (some_inj q) (h i d refl),
          ),
        )
]
  where
    no_lt : lt ≡ gt → ⊥
    no_lt q = cc

    no_eq : eq ≡ gt → ⊥
    no_eq q = cc

    kept :
        Le s d
        → (Is (some (j, s)) p dc → Is (some (j, s)) p dc ⊎ ((p ≡ i) × (some d ≡ some dc)))
          × (AboveBest dc (some (j, s)) → AboveBest dc (some (j, s)) × Above dc (some d))
    kept below = (
      λ h. inl h,
      λ h. (h, λ x q. subst (Le dc) (some_inj q) (Le_trans dc s d (h j s refl) below)),
    )

-- The search, from the chunk of place `i` on.
pub smallest_loop-some :
    (cs : List Chunk) (i p : ℕ) (best : Option (ℕ × DiskControl)) (dc : DiskControl)
    → smallest_loop i best cs ≡ some (p, dc)
    → ((best ≡ some (p, dc)) ⊎ ((k : ℕ) × (p ≡ i + k) × At k dc cs))
      × AboveBest dc best
      × All (λ c. Above dc (current c)) cs
unfolding smallest_loop
smallest_loop-some [] i p best dc h = (inl h, λ j d e. here (sym h ∙ e), tt)
  where
    here : {j : ℕ} {d : DiskControl} → Is (some (p, dc)) j d → Le dc d
    here {d = d} e = subst (Le dc) (ap (λ y. y.1) (some_inj e)) (Le_refl dc)
smallest_loop-some (c ∷ cs) i p best dc h =
    let (from, above, others) = smallest_loop-some cs (suc i) p (better i best (current c)) dc h in
    let (chosen, lower) = better_lem i p best (current c) dc in
    let (above_best, above_this) = lower above in
    (source chosen from, above_best, (above_this, others))
  where
    first : (p ≡ i) × (current c ≡ some dc) → (k : ℕ) × (p ≡ i + k) × At k dc (c ∷ cs)
    first (e, here) = (0, omega (arith, e), here)

    source :
        ((better i best (current c) ≡ some (p, dc))
          → (best ≡ some (p, dc)) ⊎ ((p ≡ i) × (current c ≡ some dc)))
        → (better i best (current c) ≡ some (p, dc)) ⊎ ((k : ℕ) × (p ≡ suc i + k) × At k dc cs)
        → (best ≡ some (p, dc)) ⊎ ((k : ℕ) × (p ≡ i + k) × At k dc (c ∷ cs))
    source f (inr (k, e, at)) = inr (suc k, omega (arith, e), at)
    source f (inl e) = elim (f e) [ inl b ↦ inl b | inr q ↦ inr (first q) ]

better-none :
    (i : ℕ) (best : Option (ℕ × DiskControl)) (o : Option DiskControl)
    → better i best o ≡ none
    → (best ≡ none) × (o ≡ none)
unfolding better disk_control_sort
better-none i best none h = (h, refl)
better-none i none (some d) h = absurd cc
better-none i (some (j, s)) (some d) h = elim (Ordering-cases (key_cmp s.key d.key)) [
  | inl e ↦ absurd (no (rw (better, e) at h))
  | inr (inl e) ↦ absurd (no (rw (better, e) at h))
  | inr (inr e) ↦ absurd (no (rw (better, e) at h))
]
  where
    no : {x : ℕ × DiskControl} → some x ≡ none → ⊥
    no q = cc

pub smallest_loop-none :
    (cs : List Chunk) (i : ℕ) (best : Option (ℕ × DiskControl))
    → smallest_loop i best cs ≡ none
    → (best ≡ none) × (entries cs ≡ [])
unfolding smallest_loop
smallest_loop-none [] i best h = (h, refl)
smallest_loop-none (c ∷ cs) i best h =
    let rest = smallest_loop-none cs (suc i) (better i best (current c)) h in
    let this = better-none i best (current c) rest.0 in
    (this.0, ap (λ l. l ++ entries cs) (nth-none c.merge_count c.index this.1) ∙ rest.1)
