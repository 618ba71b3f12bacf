-- ===== src/Files/Copies.antt =====
-- `eblob_copy_data`, whatever the system answers.
use eblob.Base.{
  ℕ, zero, suc, ◌+◌, ◌-◌, ◌*◌, ◌^◌, ◌≤◌, min, not, Bool, ◌==◌, ltb, List, [], ◌∷◌, length, Outcome,
  ok, err, Errno, espipe, epipe, einval, enomem, ok_inj, ◌≡◌, sym, subst, ◌∙◌, arith, ◌⊎◌, inl, inr,
  Bool-cases, if_elim, Outcome-cases,
}
use eblob.Files.{
  File, set, put, Answer, moved, failed, next, available, with_file, copy_loop, copy_data,
}
use eblob.Files.Transfers.{IsOutside, put-outside}
use eblob.Files.Copies.Rounds.{
  IsApart, Copied, failed-Copied, files1, round-Copied, IsApart-eq, IsApart-rest, Copied-none,
}
pub mod Rounds

next_le : (answers : List Answer) (n m : ℕ) → (next answers n).0 ≡ ok m → m ≤ n
next_le [] n m h = let e : n ≡ m = ok_inj h in omega (arith, e)
next_le (moved k ∷ answers) n m h = let e : min k n ≡ m = ok_inj h in omega (arith, e)
next_le (failed e ∷ answers) n m h = absurd cc

module _ (fd_in fd_out : ℕ) where
  abbrev rounds_after :
      ℕ
      → ℕ
      → List Answer
      → (ℕ → File)
      → ℕ
      → ℕ
      → ℕ
      → ℕ
      → Outcome (Unit {0}) × (ℕ → File) × List Answer
  rounds_after fuel alloc_size answers files off_in off_out out left =
      copy_loop fuel alloc_size answers (files1 fd_in fd_out files off_in off_out out) fd_in
        (off_in + out) fd_out (off_out + out) left

  copy_loop-Copied :
      (fuel alloc_size : ℕ) (answers : List Answer) (files : ℕ → File) (off_in off_out len : ℕ)
      → len ≤ fuel
      → IsApart fd_in fd_out off_in off_out len
      → Copied fd_in fd_out files off_in off_out len
          (copy_loop fuel alloc_size answers files fd_in off_in fd_out off_out len)
  unfolding copy_loop
  copy_loop-Copied zero alloc_size answers files off_in off_out len enough apart =
      let e : len ≡ 0 = omega (arith, enough) in
      rw e (Copied-none fd_in fd_out files off_in off_out answers)
  copy_loop-Copied (suc fuel) alloc_size answers files off_in off_out zero enough apart =
      Copied-none fd_in fd_out files off_in off_out answers
  copy_loop-Copied (suc fuel) alloc_size answers files off_in off_out (suc n) enough apart =
      let want = available (files fd_in) off_in (min alloc_size (suc n)) in
      let fail = failed-Copied fd_in fd_out files off_in off_out (suc n) in
      elim (Outcome-cases (next answers want).0) [
        | inl (e, h) ↦ rw (h, copy_loop) (fail e (next answers want).1)
        | inr (got, h) ↦
            let answers1 = (next answers want).1 in
            elim (Bool-cases (got == 0)) [
              | inl z ↦ rw (h, copy_loop, z) (fail espipe answers1)
              | inr z ↦ elim (Outcome-cases (next answers1 got).0) [
                | inl (e, k) ↦ rw (h, copy_loop, z, k) (fail e (next answers1 got).1)
                | inr (out, k) ↦ elim (Bool-cases (out == 0)) [
                  | inl y ↦ rw (h, copy_loop, z, k, y) (fail epipe (next answers1 got).1)
                  | inr y ↦
                      let small : got ≤ want = next_le answers want got h in
                      let some_ : out ≤ got = next_le answers1 got out k in
                      let left = suc n - out in
                      let whole : suc n ≡ out + left = omega (arith, small, some_) in
                      let rest =
                        copy_loop-Copied fuel alloc_size (next answers1 got).1
                          (files1 fd_in fd_out files off_in off_out out) (off_in + out)
                          (off_out + out) left (ground arith)
                          (IsApart-rest fd_in fd_out off_in off_out out left (
                            IsApart-eq fd_in fd_out off_in off_out (suc n) (out + left) whole
                              apart)) in
                      rw (h, copy_loop, z, k, y)
                        (subst
                          (λ l. Copied fd_in fd_out files off_in off_out l (
                            rounds_after fuel alloc_size (next answers1 got).1 files off_in off_out
                              out left))
                          (sym whole)
                          (round-Copied fd_in fd_out files off_in off_out out left
                            (rounds_after fuel alloc_size (next answers1 got).1 files off_in off_out
                              out left)
                            (IsApart-eq fd_in fd_out off_in off_out (suc n) (out + left) whole
                              apart)
                            rest))
                ]
              ]
            ]
      ]

  -- `eblob_copy_data`, between ranges that do not overlap, whatever the system answers: no byte
  -- outside of the range that is written changes, and if the call returns 0 the bytes there are those
  -- of the source.
  pub copy_data-Copied :
      (malloc : Bool) (answers : List Answer) (files : ℕ → File) (off_in off_out len : ℕ)
      → IsApart fd_in fd_out off_in off_out len
      → Copied fd_in fd_out files off_in off_out len
          (copy_data malloc answers files fd_in off_in fd_out off_out len)
  unfolding copy_data
  copy_data-Copied malloc answers files off_in off_out len apart =
      if_elim (Copied fd_in fd_out files off_in off_out len) (len == 0) _ _
        (λ h. failed-Copied fd_in fd_out files off_in off_out len einval answers)
        (λ h.
          if_elim (Copied fd_in fd_out files off_in off_out len) (not malloc) _ _
            (λ k. failed-Copied fd_in fd_out files off_in off_out len enomem answers)
            (λ k.
              copy_loop-Copied len (min len (10 * 2 ^ 20)) answers files off_in off_out len
                (omega arith) apart))
