-- ===== src/Index/Search/Backward.antt =====
-- The backward loop of `eblob_find_on_disk`.
use Prim.Native.Nat.Ordering.{lt, eq, gt}
use eblob.Base.{
  ℕ, zero, suc, ◌+◌, ◌≤◌, ◌<◌, Ordering, Ordering-cases, Bool-cases, List, Outcome, ◌≡◌, refl, sym,
  subst, ◌∙◌, arith, inl, inr,
}
use eblob.Record.{DiskControl}
use eblob.Index.{disk_control_sort}
use eblob.Index.Search.{Search, Scan, hit, miss, backward, find_non_removed}
use eblob.Index.Search.Windows.{
  Shows, IsSame, IsDead, IsHit, AllDead, AllDead-join, AllDead-one, AllDead-none,
}

module _ (at : ℕ → DiskControl) (read : ℕ → ℕ → Outcome (List DiskControl)) (bytes per_block : ℕ)
    (dc : DiskControl) (saved orig : ℕ) where
  abbrev run : ℕ → Search → ℕ → Scan
  run = backward read bytes per_block find_non_removed dc saved orig

  abbrev placed : Search → ℕ → Search
  placed s i = record s { sorted = i }

  -- What a walk back over the first `n` headers of the buffer, the first of them `p`, comes to.
  pub data Returned (p n fuel : ℕ) (s : Search) (out : Scan) : Type 0 where
    finds : (i : ℕ) → i < n → IsHit at dc (p + i) → out ≡ hit (placed s i) → Returned p n fuel s out
    stops :
        (i : ℕ)
        → i < n
        → AllDead at dc (p + suc i) (p + n)
        → (IsSame at dc (p + i) → ⊥)
        → out ≡ miss s
        → Returned p n fuel s out
    passes :
        (rest : ℕ)
        → rest + n ≡ fuel
        → AllDead at dc p (p + n)
        → out ≡ run rest s 0
        → Returned p n fuel s out

  differs :
      (t : ℕ) (o : Ordering) → disk_control_sort (at t) dc ≡ o → (o ≡ eq → ⊥) → IsSame at dc t → ⊥
  differs t o e ne same = ne (sym e ∙ same)

  one_more :
      (p n fuel : ℕ) (s : Search) (out : Scan)
      → IsDead at dc (p + n)
      → Returned p n fuel s out
      → Returned p (suc n) (suc fuel) s out
  one_more p n fuel s out dead (finds i h found e) = finds i (omega (arith, h)) found e
  one_more p n fuel s out dead (stops i h all other e) =
      stops i (omega (arith, h))
        (AllDead-join at dc (p + suc i) (p + n) (p + suc n) all
          (subst (AllDead at dc (p + n)) (omega arith) (AllDead-one at dc (p + n) dead)))
        other e
  one_more p n fuel s out dead (passes rest left all e) =
      passes rest (omega (arith, left))
        (AllDead-join at dc p (p + n) (p + suc n) all
          (subst (AllDead at dc (p + n)) (omega arith) (AllDead-one at dc (p + n) dead)))
        e

  pub backward-Returned :
      (n fuel p : ℕ) (s : Search)
      → Shows at s.hdr_block p 0 n
      → n ≤ fuel
      → Returned p n fuel s (run fuel s n)
  unfolding backward
  backward-Returned zero fuel p s shows enough =
      passes fuel (omega arith) (λ t lo hi. absurd (omega (arith, lo, hi))) refl
  backward-Returned (suc n) zero p s shows enough = absurd (omega (arith, enough))
  backward-Returned (suc n) (suc fuel) p s shows enough =
      elim (Ordering-cases (disk_control_sort (at (p + n)) dc)) [
        | inl e ↦
            stops n (omega arith) (AllDead-none at dc (p + suc n)) (differs (p + n) lt e (λ z. cc))
              (rw (backward, shows n (omega arith) (omega arith), e) refl)
        | inr (inr e) ↦
            stops n (omega arith) (AllDead-none at dc (p + suc n)) (differs (p + n) gt e (λ z. cc))
              (rw (backward, shows n (omega arith) (omega arith), e) refl)
        | inr (inl e) ↦ elim (Bool-cases (find_non_removed (at (p + n)))) [
          | inl live ↦
              finds n (omega arith) (e, live)
                (rw (backward, shows n (omega arith) (omega arith), e, live) refl)
          | inr dead ↦
              rw (backward, shows n (omega arith) (omega arith), e, dead)
                (one_more p n fuel s _ (e, dead)
                  (backward-Returned n fuel p s (λ i lo hi. shows i lo (omega (arith, hi)))
                    (omega (arith, enough))))
        ]
      ]
