-- ===== src/Range/Fuzzy.antt =====
-- library/range.c: what `eblob_bsearch_fuzzy` finds.
use Prim.Native.Nat.Ordering.{lt, eq, gt}
use eblob.Base.{
  ℕ, zero, suc, ◌+◌, ◌-◌, ◌*◌, ◌/◌, ◌≤◌, ◌<◌, ltb, ltb→lt, Ordering-cases, true, false, Bool-cases,
  Option, none, some, Outcome, ok, ◌≡◌, refl, sym, ap, subst, some_inj, ◌∙◌, arith, ◌⊎◌, inl, inr,
}
use eblob.Key.{Key}
use eblob.Key.Order.{key_cmp, key_cmp-IsOrder, flip}
use eblob.Record.{DiskControl}
use eblob.Index.Search.Keys.{Le}
use eblob.Index.Search.Ordered.{IsOrdered}
use eblob.Range.{id_in_range, fuzzy_loop, bsearch_fuzzy}

lt_below : (a b k : Key) → Le a b → key_cmp b k ≡ lt → key_cmp a k ≡ lt
lt_below a b k le h = elim (Ordering-cases (key_cmp a b)) [
  | inl e ↦ key_cmp-IsOrder.lt_trans a b k e h
  | inr (inl e) ↦ subst (λ z. key_cmp z k ≡ lt) (sym (key_cmp-IsOrder.eq_of_cmp a b e)) h
  | inr (inr e) ↦ absurd (le e)
]

gt_above : (a b k : Key) → Le a b → key_cmp a k ≡ gt → key_cmp b k ≡ gt
gt_above a b k le h = elim (Ordering-cases (key_cmp a b)) [
  | inl e ↦
      key_cmp-IsOrder.swap k b
      ∙ ap flip (key_cmp-IsOrder.lt_trans k a b (key_cmp-IsOrder.swap a k ∙ ap flip h) e)
  | inr (inl e) ↦ subst (λ z. key_cmp z k ≡ gt) (key_cmp-IsOrder.eq_of_cmp a b e) h
  | inr (inr e) ↦ absurd (le e)
]

-- A key by its comparisons with the ends of a range.
in_range_eq : (k start end : Key) → key_cmp k start ≡ eq → id_in_range k.id start.id end.id ≡ true
unfolding id_in_range
in_range_eq k start end e = rw (id_in_range, e) refl

in_range_gt :
    (k start end : Key)
    → key_cmp k start ≡ gt
    → (key_cmp k end ≡ gt → ⊥)
    → id_in_range k.id start.id end.id ≡ true
unfolding id_in_range
in_range_gt k start end e ne = elim (Ordering-cases (key_cmp k end)) [
  | inl f ↦ rw (id_in_range, e, f) refl
  | inr (inl f) ↦ rw (id_in_range, e, f) refl
  | inr (inr f) ↦ absurd (ne f)
]

out_gt :
    (k start end : Key)
    → key_cmp k start ≡ gt
    → key_cmp k end ≡ gt
    → id_in_range k.id start.id end.id ≡ true
    → ⊥
unfolding id_in_range
out_gt k start end e f h = cc (rw (id_in_range, e, f) at h)

out_lt :
    (k start end : Key)
    → Le start end
    → key_cmp k start ≡ lt
    → id_in_range k.id start.id end.id ≡ true
    → ⊥
unfolding id_in_range
out_lt k start end le e h =
    let below : key_cmp k end ≡ lt = lt_le k start end e le in cc (rw (id_in_range, e, below) at h)
  where
    lt_le : (a b c : Key) → key_cmp a b ≡ lt → Le b c → key_cmp a c ≡ lt
    lt_le a b c h' le' = elim (Ordering-cases (key_cmp b c)) [
      | inl f ↦ key_cmp-IsOrder.lt_trans a b c h' f
      | inr (inl f) ↦ subst (λ z. key_cmp a z ≡ lt) (key_cmp-IsOrder.eq_of_cmp b c f) h'
      | inr (inr f) ↦ absurd (le' f)
    ]

module _ (at : ℕ → DiskControl) (size : ℕ) (start end : Key) where
  abbrev pub InRange : ℕ → Type 0
  InRange t = id_in_range (at t).key.id start.id end.id ≡ true

  -- A header of the range with the smallest key of the range or with the key `start`, or there is
  -- none of the range.
  abbrev pub IsStart : Option ℕ → Type 0
  IsStart none = (t : ℕ) → t < size → InRange t → ⊥
  IsStart (some i) =
      (i < size) × InRange i × (((at i).key ≡ start) ⊎ ((t : ℕ) → t < i → InRange t → ⊥))

  -- What the loop knows: its bounds, and the header found, which is the upper one.
  record IsNarrowed (low high : ℕ) (found : Option ℕ) : Type 0 where
    ordered : low ≤ high
    inside : high ≤ size
    below : (t : ℕ) → t < low → key_cmp (at t).key start ≡ lt
    above : (t : ℕ) → high ≤ t → t < size → key_cmp (at t).key start ≡ gt
    nothing : found ≡ none → high < size → key_cmp (at high).key end ≡ gt
    upper :
        (f : ℕ) → found ≡ some f → (f ≡ high) × (high < size) × (key_cmp (at high).key end ≡ gt → ⊥)

  module _ (read_hdr : ℕ → Outcome DiskControl)
      (reads : (t : ℕ) → t < size → read_hdr (t * 96) ≡ ok (at t)) (ordered : IsOrdered at size)
      (le : Le start end) where
    -- The header between the bounds.
    abbrev mid : ℕ → ℕ → ℕ
    mid low high = low + (high + 1 - low) / 2 - 1

    done_lem :
        (low high : ℕ) (found : Option ℕ)
        → IsNarrowed low high found
        → ltb low high ≡ false
        → IsStart found
    done_lem low high none v e = λ t inside h. elim (side t low) [
      | inl b ↦ out_lt (at t).key start end le (v.below t b) h
      | inr b ↦
          let past : high ≤ t = ground (arith, e, b) in
          out_gt (at t).key start end (v.above t past inside)
            (gt_above (at high).key (at t).key end (ordered high t past inside)
              (v.nothing refl (omega (arith, past, inside))))
            h
    ]
      where
        side : (a b : ℕ) → (a < b) ⊎ (b ≤ a)
        side a b = ground arith
    done_lem low high (some f) v e =
        let (is, inside, within) = v.upper f refl in
        let meet : low ≡ high = ground (arith, v.ordered) in
        subst (λ k. IsStart (some k)) (sym is)
          (
            inside,
            in_range_gt (at high).key start end (v.above high (omega arith) inside) within,
            inr (λ t below.
                out_lt (at t).key start end le (v.below t (omega (arith, meet, below)))),
          )

    raise_low :
        (low high i : ℕ) (found : Option ℕ)
        → IsNarrowed low high found
        → low ≤ i
        → i < high
        → key_cmp (at i).key start ≡ lt
        → IsNarrowed (i + 1) high found
    raise_low low high i found v h k e = record {
      ordered = omega (arith, k);
      inside = v.inside;
      below = λ t b.
          lt_below (at t).key (at i).key start
            (ordered t i (omega (arith, b)) (omega (arith, k, v.inside))) e;
      above = v.above;
      nothing = v.nothing;
      upper = v.upper;
    }

    above_mid :
        (low high i : ℕ) (found : Option ℕ)
        → IsNarrowed low high found
        → key_cmp (at i).key start ≡ gt
        → (t : ℕ) → i ≤ t
        → t < size
        → key_cmp (at t).key start ≡ gt
    above_mid low high i found v e t b inside =
        gt_above (at i).key (at t).key start (ordered i t b inside) e

    lower_past :
        (low high i : ℕ) (found : Option ℕ)
        → IsNarrowed low high found
        → low ≤ i
        → i < high
        → key_cmp (at i).key start ≡ gt
        → key_cmp (at i).key end ≡ gt
        → IsNarrowed low i found
    lower_past low high i found v h k e f = record {
      ordered = h;
      inside = omega (arith, k, v.inside);
      below = v.below;
      above = above_mid low high i found v e;
      nothing = λ z b. f;
      upper = λ g is.
          let u = v.upper g is in
          absurd
            (u.2 (gt_above (at i).key (at high).key end (ordered i high (omega (arith, k)) u.1) f));
    }

    lower_found :
        (low high i : ℕ) (found : Option ℕ)
        → IsNarrowed low high found
        → low ≤ i
        → i < high
        → key_cmp (at i).key start ≡ gt
        → (key_cmp (at i).key end ≡ gt → ⊥)
        → IsNarrowed low i (some i)
    lower_found low high i found v h k e ne = record {
      ordered = h;
      inside = omega (arith, k, v.inside);
      below = v.below;
      above = above_mid low high i found v e;
      nothing = λ z b. absurd cc;
      upper = λ g is. (sym (some_inj is), omega (arith, k, v.inside), ne);
    }

    fuzzy_loop-IsStart :
        (fuel low high : ℕ) (found : Option ℕ)
        → IsNarrowed low high found
        → high - low < fuel
        → (r : Option ℕ) × (fuzzy_loop read_hdr start end fuel low high found ≡ some r) × IsStart r
    unfolding fuzzy_loop
    fuzzy_loop-IsStart zero low high found v enough = absurd (omega (arith, enough))
    fuzzy_loop-IsStart (suc fuel) low high found v enough = elim (Bool-cases (ltb low high)) [
      | inr e ↦ (found, rw (fuzzy_loop, e) refl, done_lem low high found v e)
      | inl e ↦
          let i = mid low high in
          let room : low < high = ltb→lt low high e in
          let h : low ≤ i = omega (arith, room) in
          let k : i < high = omega (arith, room) in
          let got = reads i (omega (arith, k, v.inside)) in
          elim (Ordering-cases (key_cmp (at i).key start)) [
            | inl c ↦
                rw (fuzzy_loop, e, got, c)
                  (fuzzy_loop-IsStart fuel (i + 1) high found (raise_low low high i found v h k c)
                    (omega (arith, h, k, enough)))
            | inr (inl c) ↦ (
              some i,
              rw (fuzzy_loop, e, got, c) refl,
              (
                omega (arith, k, v.inside),
                in_range_eq (at i).key start end c,
                inl (key_cmp-IsOrder.eq_of_cmp (at i).key start c),
              ),
            )
            | inr (inr c) ↦ elim (Ordering-cases (key_cmp (at i).key end)) [
              | inl d ↦
                  rw (fuzzy_loop, e, got, c, d)
                    (fuzzy_loop-IsStart fuel low i (some i)
                      (lower_found low high i found v h k c (λ z. cc))
                      (omega (arith, h, k, enough)))
              | inr (inl d) ↦
                  rw (fuzzy_loop, e, got, c, d)
                    (fuzzy_loop-IsStart fuel low i (some i)
                      (lower_found low high i found v h k c (λ z. cc))
                      (omega (arith, h, k, enough)))
              | inr (inr d) ↦
                  rw (fuzzy_loop, e, got, c, d)
                    (fuzzy_loop-IsStart fuel low i found (lower_past low high i found v h k c d)
                      (omega (arith, h, k, enough)))
            ]
          ]
    ]

    -- `eblob_bsearch_fuzzy`, over an index in the order of its keys whose headers can be read, for a
    -- range whose first key is not behind its last: it ends, and gives a header of the range, the
    -- first one of it or one with the first key of the range; -1 only if the index has no header of
    -- the range.
    pub bsearch_fuzzy-IsStart :
        (r : Option ℕ) × (bsearch_fuzzy read_hdr (size * 96) start end ≡ some r) × IsStart r
    unfolding bsearch_fuzzy
    bsearch_fuzzy-IsStart =
        let e : size * 96 / 96 ≡ size = omega arith in
        rw (bsearch_fuzzy, e)
          (fuzzy_loop-IsStart (suc size) 0 size none
            (record {
              ordered = omega arith;
              inside = omega arith;
              below = λ t b. absurd (omega (arith, b));
              above = λ t b c. absurd (omega (arith, b, c));
              nothing = λ z b. absurd (omega (arith, b));
              upper = λ f is. absurd cc;
            })
            (omega arith))
