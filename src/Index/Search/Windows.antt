-- ===== src/Index/Search/Windows.antt =====
-- The buffer of `eblob_find_on_disk` and the sorted index behind it.
use Prim.Native.Nat.Ordering.{eq}
use eblob.Base.{
  ℕ, zero, suc, ◌+◌, ◌*◌, ◌≤◌, ◌<◌, true, false, some, List, [], ◌∷◌, get_elem?, length, Outcome,
  ok, ◌≡◌, refl, ap, subst, ◌∙◌, arith, ◌⊎◌, inl, inr,
}
use eblob.Record.{DiskControl}
use eblob.Index.{disk_control_sort}
use eblob.Index.Search.{Search, moved, read_block, refill, find_non_removed}

-- The headers `p` up to `p + n` of an index.
abbrev pub window : (ℕ → DiskControl) → ℕ → ℕ → List DiskControl
window at p zero = []
window at p (suc n) = at p ∷ window at (suc p) n

pub get_elem?-window :
    (at : ℕ → DiskControl) (p n i : ℕ) → i < n → get_elem? (window at p n) i ≡ some (at (p + i))
get_elem?-window at p zero i h = absurd (omega arith)
get_elem?-window at p (suc n) zero h = ap (λ k. some (at k)) (omega arith)
get_elem?-window at p (suc n) (suc i) h =
    get_elem?-window at (suc p) n i (omega arith) ∙ ap (λ k. some (at k)) (omega arith)

pub window-inside :
    (at : ℕ → DiskControl) (p n i : ℕ) (x : DiskControl)
    → get_elem? (window at p n) i ≡ some x
    → (i < n) × (at (p + i) ≡ x)
window-inside at p zero i x h = absurd cc
window-inside at p (suc n) zero x h = (omega arith, let e : p + 0 ≡ p = omega arith in rw e (cc h))
window-inside at p (suc n) (suc i) x h =
    let rest = window-inside at (suc p) n i x h in
    let e : p + suc i ≡ suc p + i = omega arith in (omega (arith, rest.0), rw e rest.1)

length-window : (at : ℕ → DiskControl) (p n : ℕ) → length (window at p n) ≡ n
length-window at p zero = refl
length-window at p (suc n) = ap suc (length-window at (suc p) n)

get_elem?-overwrite_new :
    (new old : List DiskControl) (i : ℕ)
    → i < length new
    → get_elem? (refill new old) i ≡ get_elem? new i
get_elem?-overwrite_new [] old i h = absurd (omega arith)
get_elem?-overwrite_new (x ∷ new) [] i h = refl
get_elem?-overwrite_new (x ∷ new) (o ∷ old) zero h = refl
get_elem?-overwrite_new (x ∷ new) (o ∷ old) (suc i) h =
    get_elem?-overwrite_new new old i (omega arith)

get_elem?-overwrite_old :
    (new old : List DiskControl) (i : ℕ)
    → length new ≤ i
    → i < length old
    → get_elem? (refill new old) i ≡ get_elem? old i
get_elem?-overwrite_old [] old i h k = refl
get_elem?-overwrite_old (x ∷ new) [] i h k = absurd (omega arith)
get_elem?-overwrite_old (x ∷ new) (o ∷ old) zero h k = absurd (omega arith)
get_elem?-overwrite_old (x ∷ new) (o ∷ old) (suc i) h k =
    get_elem?-overwrite_old new old i (omega arith) (omega arith)

get_elem?-some-lt :
    (xs : List DiskControl) (i : ℕ) (x : DiskControl) → get_elem? xs i ≡ some x → i < length xs
get_elem?-some-lt [] i x h = absurd cc
get_elem?-some-lt (y ∷ xs) zero x h = omega arith
get_elem?-some-lt (y ∷ xs) (suc i) x h = omega (arith, get_elem?-some-lt xs i x h)

module _ (at : ℕ → DiskControl) where
  -- The buffer has the headers of the index from `p` on, at its places from `lo` up to `hi`.
  abbrev pub Shows : List DiskControl → ℕ → ℕ → ℕ → Type 0
  Shows buf p lo hi = (i : ℕ) → lo ≤ i → i < hi → get_elem? buf i ≡ some (at (p + i))

  pub window-Shows : (p n : ℕ) (old : List DiskControl) → Shows (refill (window at p n) old) p 0 n
  window-Shows p n old i lo hi =
      get_elem?-overwrite_new (window at p n) old i (rw (length-window at p n) hi)
      ∙ get_elem?-window at p n i hi

  pub kept-Shows :
      (p n : ℕ) (old : List DiskControl) (q hi : ℕ)
      → Shows old q n hi
      → Shows (refill (window at p n) old) q n hi
  kept-Shows p n old q hi shows i lo h =
      get_elem?-overwrite_old (window at p n) old i (rw (length-window at p n) lo)
        (get_elem?-some-lt old i (at (q + i)) (shows i lo h))
      ∙ shows i lo h

  -- Reading any headers of an index of `size` of them succeeds.
  abbrev pub IsRead : (ℕ → ℕ → Outcome (List DiskControl)) → ℕ → Type 0
  IsRead read size = (p n : ℕ) → p + n ≤ size → read (p * 96) (n * 96) ≡ ok (window at p n)

  pub read_block-moved :
      (read : ℕ → ℕ → Outcome (List DiskControl)) (size bytes per_block : ℕ)
      → IsRead read size
      → (s : Search) (p n : ℕ) → s.hdr_block_offset ≡ p * 96
      → s.hdr_block_size ≡ n * 96
      → p + n ≤ size
      → read_block read bytes per_block s
        ≡ moved (record s { hdr_block = refill (window at p n) s.hdr_block })
  unfolding read_block
  read_block-moved read size bytes per_block reads s p n offset width inside =
      let e : read s.hdr_block_offset s.hdr_block_size ≡ ok (window at p n) =
        ap (λ k. read k s.hdr_block_size) offset ∙ ap (read (p * 96)) width ∙ reads p n inside in
      rw (read_block, e) refl

  -- A header by what the search makes of it: it has the key, or not, and is removed, or not.
  abbrev pub IsSame : DiskControl → ℕ → Type 0
  IsSame dc t = disk_control_sort (at t) dc ≡ eq

  abbrev pub IsDead : DiskControl → ℕ → Type 0
  IsDead dc t = IsSame dc t × (find_non_removed (at t) ≡ false)

  abbrev pub IsHit : DiskControl → ℕ → Type 0
  IsHit dc t = IsSame dc t × (find_non_removed (at t) ≡ true)

  -- All headers from `lo` up to `hi` have the key and are removed.
  abbrev pub AllDead : DiskControl → ℕ → ℕ → Type 0
  AllDead dc lo hi = (t : ℕ) → lo ≤ t → t < hi → IsDead dc t

  pub AllDead-join :
      (dc : DiskControl) (lo mid hi : ℕ) → AllDead dc lo mid → AllDead dc mid hi → AllDead dc lo hi
  AllDead-join dc lo mid hi left right t h k = elim (side t mid) [
    | inl b ↦ left t h b
    | inr b ↦ right t b k
  ]
    where
      side : (a b : ℕ) → (a < b) ⊎ (b ≤ a)
      side a b = ground arith

  pub AllDead-one : (dc : DiskControl) (t : ℕ) → IsDead dc t → AllDead dc t (t + 1)
  AllDead-one dc t h t' lo hi = let e : t ≡ t' = omega arith in subst (IsDead dc) e h

  pub AllDead-none : (dc : DiskControl) (t : ℕ) → AllDead dc t t
  AllDead-none dc t t' lo hi = absurd (omega arith)
