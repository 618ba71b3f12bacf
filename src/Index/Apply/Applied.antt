-- ===== src/Index/Apply/Applied.antt =====
-- library/index.c: the sorted index after `indexsort_binlog_apply`.
use eblob.Base.{
  ℕ, zero, suc, Ordering-cases, Bool, false, Bool-cases, some, Option-cases, List, [], ◌∷◌, All,
  All-imp, get_elem?, Outcome, ok, Outcome-cases, ◌≡◌, ◌≢◌, sym, ap, subst, some_inj, ◌∙◌, inl, inr,
}
use eblob.Key.{Key}
use eblob.Key.Order.{key_cmp, key_cmp-IsOrder}
use eblob.Record.{DiskControl}
use eblob.Binlog.Replay.{replay_whole}
use eblob.Index.{is_removed, disk_control_sort}
use eblob.Index.Search.{Bsearch}
use eblob.Index.Search.Keys.{Le}
use eblob.Index.Lookup.{dc_of}
use eblob.Index.Apply.Marked.{
  IsFlagged, IsMarked, Both, unmarked, now-IsMarked, none-IsMarked, Is, past_key, All-get,
  All-of_get, Both-join, Both-IsFlagged, flagged-IsPartitioned, sort_eq, eq_sort, KeyIn, both_marks,
}
use eblob.Index.Apply.{
  sorted_index_bsearch_raw, mark_run, mark_from, apply_keys, indexsort_binlog_apply,
}

module _ {W : Type 0} (mark : ℕ → W → Outcome (Unit {0}) × W) where
  mark_run-Both :
      (key : Key) (xs : List DiskControl) (w : W)
      → All (λ y. Le key y.key) xs
      → IsFlagged xs
      → (mark_run mark key xs w).0 ≡ ok tt
      → Both (IsMarked (Is key)) xs (mark_run mark key xs w).1
  unfolding mark_run
  mark_run-Both key [] w le flagged done = tt
  mark_run-Both key (x ∷ xs) w le flagged done = elim (Ordering-cases (key_cmp key x.key)) [
    | inl e ↦
        rw (mark_run, e) (differs (λ is. cc (e, key_cmp-IsOrder.same key, ap (key_cmp key) is)))
    | inr (inr e) ↦ absurd (le.0 e)
    | inr (inl e) ↦ elim (Outcome-cases (mark x.position w).0) [
      | inl (n, h) ↦ absurd (cc (rw (mark_run, e, h) at done))
      | inr (u, h) ↦
          rw (mark_run, e, h)
            (
              now-IsMarked (Is key) x (sym (key_cmp-IsOrder.eq_of_cmp key x.key e)),
              mark_run-Both key xs (mark x.position w).1 le.1 flagged.1
                  (rw (mark_run, e, h) at done),
            )
    ]
  ]
    where
      differs : (x.key ≡ key → ⊥) → Both (IsMarked (Is key)) (x ∷ xs) (x ∷ xs)
      differs ne = none-IsMarked (Is key) (x ∷ xs) (ne, past_key key x xs le.0 ne flagged.0)

  mark_from-Both :
      (i : ℕ) (key : Key) (xs : List DiskControl) (w : W) (z : DiskControl)
      → get_elem? xs i ≡ some z
      → z.key ≡ key
      → IsFlagged xs
      → (mark_from mark i key xs w).0 ≡ ok tt
      → Both (IsMarked (Is key)) xs (mark_from mark i key xs w).1
  unfolding mark_from
  mark_from-Both i key [] w z h is flagged done = absurd cc
  mark_from-Both zero key (x ∷ xs) w z h is flagged done =
      let here : x.key ≡ key = ap (λ d. d.key) (some_inj h) ∙ is in
      mark_run-Both key (x ∷ xs) w
        (
          (λ g. cc (g, key_cmp-IsOrder.same key, ap (key_cmp key) here)),
          All-imp (λ y. Le x.key y.key × (is_removed x ≡ false → y.key ≢ x.key)) (λ y. Le key y.key)
              (λ y v. subst (λ k. Le k y.key) here v.0) xs flagged.0,
        )
        flagged done
  mark_from-Both (suc i) key (x ∷ xs) w z h is flagged done = (
    unmarked (Is key) x (λ same. elim (Bool-cases (is_removed x)) [
      | inl r ↦ r
      | inr live ↦ absurd ((All-get _ xs i z flagged.0 h).1 live (is ∙ sym same))
    ]),
    mark_from-Both i key xs w z h is flagged.1 done,
  )

  apply_keys-Both :
      (bs : Bsearch) (keys : List Key) (xs : List DiskControl) (w : W)
      → IsFlagged xs
      → (apply_keys mark bs keys xs w).0 ≡ ok tt
      → Both (IsMarked (KeyIn keys)) xs (apply_keys mark bs keys xs w).1
  unfolding apply_keys sorted_index_bsearch_raw
  apply_keys-Both bs [] xs w flagged done = none-IsMarked (KeyIn []) xs (All-any xs)
    where
      All-any : (ys : List DiskControl) → All (λ y. KeyIn [] y.key → ⊥) ys
      All-any [] = tt
      All-any (y ∷ ys) = (λ h. h, All-any ys)
  apply_keys-Both bs (key ∷ keys) xs w flagged done =
      let cmp = disk_control_sort (dc_of key) in
      let parts = flagged-IsPartitioned key xs flagged in
      elim (Option-cases (bs.search_in DiskControl cmp xs)) [
        | inl e ↦
            let absent : All (λ y. Is key y.key → ⊥) xs =
              All-of_get (λ y. Is key y.key → ⊥) xs
                (λ i y h is.
                  bs.search_in-none DiskControl cmp xs parts e i y h (sort_eq key y is)) in
            rw (apply_keys, sorted_index_bsearch_raw, e)
              (Both-join (IsMarked (Is key)) (IsMarked (KeyIn keys)) (IsMarked (KeyIn (key ∷ keys)))
                (both_marks key keys) xs xs (apply_keys mark bs keys xs w).1
                (none-IsMarked (Is key) xs absent)
                (apply_keys-Both bs keys xs w flagged
                  (rw (apply_keys, sorted_index_bsearch_raw, e) at done)))
        | inr (i, e) ↦
            let v = bs.search_in-eq DiskControl cmp xs parts i e in
            let out = mark_from mark i key xs w in
            elim (Outcome-cases out.0) [
              | inl (n, h) ↦
                  absurd (cc (h, rw (apply_keys, sorted_index_bsearch_raw, e, h) at done))
              | inr (u, h) ↦
                  let one = mark_from-Both i key xs w v.0 v.1 (eq_sort key v.0 v.2) flagged h in
                  rw (apply_keys, sorted_index_bsearch_raw, e, h)
                    (Both-join (IsMarked (Is key)) (IsMarked (KeyIn keys))
                      (IsMarked (KeyIn (key ∷ keys))) (both_marks key keys) xs out.1
                      (apply_keys mark bs keys out.1 out.2).1 one
                      (apply_keys-Both bs keys out.1 out.2
                        (Both-IsFlagged (Is key) xs out.1 one flagged)
                        (rw (apply_keys, sorted_index_bsearch_raw, e, h) at done)))
            ]
      ]

  -- `indexsort_binlog_apply` of an index in the order of its keys, in which of the headers with one
  -- key only the last is not removed: where it returns 0, every header whose key is in the binlog is
  -- removed, every other one is as it was, and the keys stand where they stood.
  pub indexsort_binlog_apply-Both :
      (bs : Bsearch) (enabled : Bool) (keys : List Key) (xs : List DiskControl) (w : W)
      → IsFlagged xs
      → (indexsort_binlog_apply mark bs (record { enabled = enabled; removed_keys = keys }) xs w).0
        ≡ ok tt
      → Both
          (IsMarked (KeyIn keys))
          xs
          (indexsort_binlog_apply mark bs
            (record { enabled = enabled; removed_keys = keys })
            xs
            w).1
  unfolding indexsort_binlog_apply
  indexsort_binlog_apply-Both bs enabled keys xs w flagged done =
      subst
        (λ ks.
          (apply_keys mark bs ks xs w).0 ≡ ok tt
          → Both (IsMarked (KeyIn keys)) xs (apply_keys mark bs ks xs w).1)
        (sym (replay_whole enabled keys)) (apply_keys-Both bs keys xs w flagged) done
