-- ===== src/Index/Search/Keys.antt =====
-- The orders of keys, of headers and of blocks that the search compares by.
use Prim.Native.Nat.Ordering.{lt, eq, gt}
use eblob.Base.{
  ◌≤◌, Ordering, Ordering-cases, ◌≡◌, ◌≢◌, ◌↔◌, refl, sym, ap, subst, ◌∙◌, arith, inl, inr,
}
use eblob.Key.{Key}
use eblob.Key.Order.{key_cmp, key_cmp-IsOrder, flip}
use eblob.Record.{DiskControl}
use eblob.Index.{IndexBlock, disk_control_sort, key_range_cmp}
use eblob.Index.Search.{rank}

abbrev pub Le : Key → Key → Type 0
Le a b = key_cmp a b ≢ gt

gt_of_le : (k a b : Key) → Le b a → key_cmp k a ≡ gt → key_cmp k b ≡ gt
gt_of_le k a b le h = elim (Ordering-cases (key_cmp b a)) [
  | inl e ↦
      key_cmp-IsOrder.swap b k
      ∙ ap flip (key_cmp-IsOrder.lt_trans b a k e (key_cmp-IsOrder.swap k a ∙ ap flip h))
  | inr (inl e) ↦ subst (λ z. key_cmp k z ≡ gt) (sym (key_cmp-IsOrder.eq_of_cmp b a e)) h
  | inr (inr e) ↦ absurd (le e)
]

ge_of_le : (k a b : Key) → Le b a → (key_cmp k a ≡ lt → ⊥) → key_cmp k b ≡ lt → ⊥
ge_of_le k a b le h e = elim (Ordering-cases (key_cmp k a)) [
  | inl z ↦ h z
  | inr (inl z) ↦ le (
      key_cmp-IsOrder.swap a b
      ∙ ap flip (subst (λ y. key_cmp y b ≡ lt) (key_cmp-IsOrder.eq_of_cmp k a z) e))
  | inr (inr z) ↦ lt_gt (sym e ∙ gt_of_le k a b le z)
]
  where
    lt_gt : ◌≡◌ {A = Ordering} lt gt → ⊥
    lt_gt z = cc

rank_of : (o o' : Ordering) → (o ≡ gt → o' ≡ gt) → ((o ≡ lt → ⊥) → o' ≡ lt → ⊥) → rank o ≤ rank o'
rank_of lt o' f g = omega arith
rank_of eq lt f g = absurd (g (λ e. cc) refl)
rank_of eq eq f g = omega arith
rank_of eq gt f g = omega arith
rank_of gt o' f g = let e : gt ≡ o' = sym (f refl) in subst (λ o. 2 ≤ rank o) e (omega arith)

pub rank-le : (k a b : Key) → Le b a → rank (key_cmp k a) ≤ rank (key_cmp k b)
rank-le k a b le = rank_of (key_cmp k a) (key_cmp k b) (gt_of_le k a b le) (ge_of_le k a b le)

pub eq_of_between : (a b k : Key) → Le a b → Le b k → a ≡ k → b ≡ k
eq_of_between a b k h l same = elim (Ordering-cases (key_cmp b k)) [
  | inl e ↦
      absurd (h (key_cmp-IsOrder.swap b a ∙ ap flip (subst (λ z. key_cmp b z ≡ lt) (sym same) e)))
  | inr (inl e) ↦ key_cmp-IsOrder.eq_of_cmp b k e
  | inr (inr e) ↦ absurd (l e)
]

-- The comparisons of the source are those of the keys.
pub same_key : (a b : DiskControl) → disk_control_sort a b ≡ eq → a.key ≡ b.key
unfolding disk_control_sort
same_key a b h = key_cmp-IsOrder.eq_of_cmp a.key b.key h

pub key_same : (a b : DiskControl) → a.key ≡ b.key → disk_control_sort a b ≡ eq
unfolding disk_control_sort
key_same a b e = subst (λ k. key_cmp a.key k ≡ eq) e (key_cmp-IsOrder.same a.key)

-- The comparison of a key with a block, by the keys of its first and of its last header.
pub range-lt_iff :
    (k : Key) (b : IndexBlock) → (key_range_cmp k b ≡ lt) ↔ (key_cmp k b.start_key ≡ lt)
unfolding key_range_cmp
range-lt_iff k b = elim (Ordering-cases (key_cmp k b.start_key)) [
  | inl e ↦ (λ h. e, λ h. rw (key_range_cmp, e) refl)
  | inr (inl e) ↦ (λ h. absurd (cc (rw (key_range_cmp, e) at h)), λ h. absurd (cc (e, h)))
  | inr (inr e) ↦ elim (Ordering-cases (key_cmp k b.end_key)) [
    | inl f ↦ (λ h. absurd (cc (rw (key_range_cmp, e, f) at h)), λ h. absurd (cc (e, h)))
    | inr (inl f) ↦ (λ h. absurd (cc (rw (key_range_cmp, e, f) at h)), λ h. absurd (cc (e, h)))
    | inr (inr f) ↦ (λ h. absurd (cc (rw (key_range_cmp, e, f) at h)), λ h. absurd (cc (e, h)))
  ]
]

pub range-gt_iff :
    (k : Key) (b : IndexBlock)
    → Le b.start_key b.end_key
    → (key_range_cmp k b ≡ gt) ↔ (key_cmp k b.end_key ≡ gt)
unfolding key_range_cmp
range-gt_iff k b le = (to, from)
  where
    from : key_cmp k b.end_key ≡ gt → key_range_cmp k b ≡ gt
    from f = rw (key_range_cmp, gt_of_le k b.end_key b.start_key le f, f) refl

    to : key_range_cmp k b ≡ gt → key_cmp k b.end_key ≡ gt
    to h = elim (Ordering-cases (key_cmp k b.start_key)) [
      | inl e ↦ absurd (cc (rw (key_range_cmp, e) at h))
      | inr (inl e) ↦ absurd (cc (rw (key_range_cmp, e) at h))
      | inr (inr e) ↦ elim (Ordering-cases (key_cmp k b.end_key)) [
        | inl f ↦ absurd (cc (rw (key_range_cmp, e, f) at h))
        | inr (inl f) ↦ absurd (cc (rw (key_range_cmp, e, f) at h))
        | inr (inr f) ↦ f
      ]
    ]

pub range-rank :
    (k : Key) (b c : IndexBlock)
    → Le b.start_key c.start_key
    → Le b.end_key c.end_key
    → Le b.start_key b.end_key
    → Le c.start_key c.end_key
    → rank (key_range_cmp k c) ≤ rank (key_range_cmp k b)
range-rank k b c starts ends hb hc =
    rank_of (key_range_cmp k c) (key_range_cmp k b)
      (λ h.
        (range-gt_iff k b hb).1 (gt_of_le k c.end_key b.end_key ends ((range-gt_iff k c hc).0 h)))
      (λ ne h.
        ge_of_le k c.start_key b.start_key starts (λ e. ne ((range-lt_iff k c).1 e))
          ((range-lt_iff k b).0 h))
