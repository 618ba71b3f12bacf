-- ===== src/Index/Search/Forward.antt =====
-- The forward loop of `eblob_find_on_disk`: its walk through one block of headers.
use Prim.Native.Nat.Ordering.{lt, eq, gt}
use eblob.Base.{
  ℕ, zero, suc, ◌+◌, ◌-◌, ◌≤◌, ◌<◌, Ordering, Ordering-cases, Bool-cases, ltb, List, Outcome, ◌≡◌,
  refl, sym, ap, subst, ◌∙◌, arith, inl, inr,
}
use eblob.Record.{DiskControl}
use eblob.Index.{disk_control_sort}
use eblob.Index.Search.{
  Search, Scan, hit, miss, moved, ended, next_block, forward, find_non_removed,
}
use eblob.Index.Search.Windows.{
  Shows, IsSame, IsDead, IsHit, AllDead, AllDead-join, AllDead-one, AllDead-none,
}

module _ (at : ℕ → DiskControl) (read : ℕ → ℕ → Outcome (List DiskControl)) (bytes per_block : ℕ)
    (dc : DiskControl) where
  abbrev run : ℕ → Search → Scan
  run = forward read bytes per_block find_non_removed dc

  abbrev placed : Search → ℕ → Search
  placed s i = record s { sorted = i }

  -- What a walk from `a` through a block of `n` headers, the first of them `p`, comes to: a header
  -- that is found, one that has another key, or the end of the block.
  pub data Walked (p n fuel : ℕ) (s : Search) (a : ℕ) (out : Scan) : Type 0 where
    finds :
        (i : ℕ)
        → a ≤ i
        → i < n
        → IsHit at dc (p + i)
        → out ≡ hit (placed s i)
        → Walked p n fuel s a out
    stops :
        (i : ℕ)
        → a ≤ i
        → i < n
        → AllDead at dc (p + a) (p + i)
        → (IsSame at dc (p + i) → ⊥)
        → out ≡ miss (placed s i)
        → Walked p n fuel s a out
    passes :
        (rest : ℕ)
        → rest + (n - a) ≡ fuel
        → AllDead at dc (p + a) (p + n)
        → ((s' : Search)
            → next_block read bytes per_block (placed s (n - 1)) ≡ ended s'
            → out ≡ miss s')
        → ((s' : Search)
            → next_block read bytes per_block (placed s (n - 1)) ≡ moved s'
            → out ≡ run rest s')
        → Walked p n fuel s a out

  differs :
      (t : ℕ) (o : Ordering) → disk_control_sort (at t) dc ≡ o → (o ≡ eq → ⊥) → IsSame at dc t → ⊥
  differs t o e ne same = ne (sym e ∙ same)

  one_more :
      (p n fuel a : ℕ) (s : Search) (out : Scan)
      → IsDead at dc (p + a)
      → a + 1 < n
      → Walked p n fuel s (a + 1) out
      → Walked p n (suc fuel) s a out
  one_more p n fuel a s out dead inside (finds i h k found e) = finds i (omega arith) k found e
  one_more p n fuel a s out dead inside (stops i h k all other e) =
      stops i (omega arith) k
        (AllDead-join at dc (p + a) (p + (a + 1)) (p + i)
          (subst (AllDead at dc (p + a)) (omega arith) (AllDead-one at dc (p + a) dead)) all)
        other e
  one_more p n fuel a s out dead inside (passes rest enough all stop go) =
      passes rest (omega arith)
        (AllDead-join at dc (p + a) (p + (a + 1)) (p + n)
          (subst (AllDead at dc (p + a)) (omega arith) (AllDead-one at dc (p + a) dead)) all)
        stop go

  pub forward-Walked :
      (fuel : ℕ) (p n a : ℕ) (s : Search)
      → s.num ≡ n
      → Shows at s.hdr_block p a n
      → a < n
      → n - a ≤ fuel
      → Walked p n fuel s a (run fuel (placed s a))
  unfolding forward
  forward-Walked zero p n a s num shows inside enough = absurd (omega (arith, inside, enough))
  forward-Walked (suc fuel) p n a s num shows inside enough =
      elim (Ordering-cases (disk_control_sort (at (p + a)) dc)) [
        | inl e ↦
            stops a (omega arith) inside (AllDead-none at dc (p + a))
              (differs (p + a) lt e (λ z. cc)) (rw (forward, shows a (omega arith) inside, e) refl)
        | inr (inr e) ↦
            stops a (omega arith) inside (AllDead-none at dc (p + a))
              (differs (p + a) gt e (λ z. cc)) (rw (forward, shows a (omega arith) inside, e) refl)
        | inr (inl e) ↦ elim (Bool-cases (find_non_removed (at (p + a)))) [
          | inl live ↦
              finds a (omega arith) inside (e, live)
                (rw (forward, shows a (omega arith) inside, e, live) refl)
          | inr dead ↦ elim (Bool-cases (ltb (s.num - 1) (a + 1))) [
            | inr more ↦
                let room : a + 1 < n = ground (arith, num) in
                rw (forward, shows a (omega arith) inside, e, dead, more)
                  (one_more p n fuel a s _ (e, dead) room
                    (forward-Walked fuel p n (a + 1) s num
                      (λ i lo hi. shows i (omega (arith, lo)) hi) room (omega (arith, enough))))
            | inl last ↦
                let at_end : a ≡ n - 1 = ground (arith, num, inside) in
                passes fuel (omega (arith, at_end, inside))
                  (subst (AllDead at dc (p + a)) (omega (arith, at_end, inside))
                    (AllDead-one at dc (p + a) (e, dead)))
                  (λ s' h.
                    rw
                      (
                        forward,
                        shows a (omega arith) inside,
                        e,
                        dead,
                        last,
                        ap (λ i. next_block read bytes per_block (placed s i)) at_end ∙ h,
                      )
                      refl)
                  (λ s' h.
                    rw
                      (
                        forward,
                        shows a (omega arith) inside,
                        e,
                        dead,
                        last,
                        ap (λ i. next_block read bytes per_block (placed s i)) at_end ∙ h,
                      )
                      refl)
          ]
        ]
      ]
