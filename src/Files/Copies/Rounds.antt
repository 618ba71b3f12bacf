-- ===== src/Files/Copies/Rounds.antt =====
-- One round of the loop of `eblob_copy_data`, and what the rounds after it leave.
use eblob.Base.{
  ℕ, zero, suc, ◌+◌, ◌-◌, ◌≤◌, ◌<◌, true, ◌==◌, ==_iff, ltb, List, length, Outcome, ok, err, Errno,
  ◌≡◌, refl, sym, ap, ◌∙◌, arith, ◌⊎◌, inl, inr, Bool-cases,
}
use eblob.Files.{File, set, put, bytes_at, Answer, with_file}
use eblob.Files.Transfers.{IsOutside, put-outside}

length-bytes_at : (n : ℕ) (f : File) (off : ℕ) → length (bytes_at f off n) ≡ n
unfolding bytes_at
length-bytes_at zero f off = refl
length-bytes_at (suc n) f off = ap suc (length-bytes_at n f (suc off))

put-inside :
    (n : ℕ) (f g : File) (from off k : ℕ)
    → k < n
    → (put f off (bytes_at g from n)).byte (off + k) ≡ g.byte (from + k)
unfolding put bytes_at
put-inside zero f g from off k h = absurd (omega (arith, h))
put-inside (suc n) f g from off zero h =
    let e : off + 0 ≡ off = omega arith in
    let e' : from + 0 ≡ from = omega arith in
    let kept =
      put-outside (bytes_at g (suc from) n) (set f off (g.byte from)) (suc off) off
        (inl (omega arith)) in
    rw (e, e') (ground (arith, kept))
put-inside (suc n) f g from off (suc k) h =
    let e : off + suc k ≡ suc off + k = omega arith in
    let e' : from + suc k ≡ suc from + k = omega arith in
    rw (e, e') (put-inside n (set f off (g.byte from)) g (suc from) (suc off) k (omega (arith, h)))

module _ (fd_in fd_out : ℕ) where
  -- The two ranges do not overlap, or they lie in different files.
  abbrev pub IsApart : ℕ → ℕ → ℕ → Type 0
  IsApart off_in off_out len =
      (fd_in ≡ fd_out → ⊥) ⊎ ((off_in + len ≤ off_out) ⊎ (off_out + len ≤ off_in))

  -- What a copy left, by what it returned: nothing else is written, and after a success the range is
  -- that of the source.
  abbrev pub Copied :
      (ℕ → File) → ℕ → ℕ → ℕ → Outcome (Unit {0}) × (ℕ → File) × List Answer → Type 0
  Copied files off_in off_out len (status, files', answers) =
      ((fd i : ℕ)
        → (fd ≡ fd_out → ⊥) ⊎ IsOutside off_out len i
        → (files' fd).byte i ≡ (files fd).byte i)
      × (status ≡ ok tt
          → (k : ℕ) → k < len
          → (files' fd_out).byte (off_out + k) ≡ (files fd_in).byte (off_in + k))

  pub failed-Copied :
      (files : ℕ → File) (off_in off_out len : ℕ) (e : Errno) (answers : List Answer)
      → Copied files off_in off_out len (err e, files, answers)
  failed-Copied files off_in off_out len e answers = (λ fd i h. refl, λ h. absurd cc)

  module _ (files : ℕ → File) (off_in off_out out : ℕ) where
    -- The files after one round.
    abbrev pub files1 : ℕ → File
    files1 = with_file files fd_out (put (files fd_out) off_out (bytes_at (files fd_in) off_in out))

    round-outside :
        (fd i : ℕ)
        → (fd ≡ fd_out → ⊥) ⊎ IsOutside off_out out i
        → (files1 fd).byte i ≡ (files fd).byte i
    round-outside fd i h = elim (Bool-cases (fd == fd_out)) [
      | inr e ↦ rw e refl
      | inl e ↦
          let same : fd ≡ fd_out = (==_iff fd fd_out).0 e in
          let n = length-bytes_at out (files fd_in) off_in in
          rw e (
            put-outside (bytes_at (files fd_in) off_in out) (files fd_out) off_out i
              (written fd i _ n same h)
            ∙ ap (λ d. (files d).byte i) (sym same))
    ]
      where
        written :
            (fd i n : ℕ)
            → n ≡ out
            → fd ≡ fd_out
            → (fd ≡ fd_out → ⊥) ⊎ IsOutside off_out out i
            → IsOutside off_out n i
        written fd i n e same (inl ne) = absurd (ne same)
        written fd i n e same (inr h) = rw e h

    round-inside :
        (k : ℕ) → k < out → (files1 fd_out).byte (off_out + k) ≡ (files fd_in).byte (off_in + k)
    round-inside k h =
        let e : (fd_out == fd_out) ≡ true = (==_iff fd_out fd_out).1 refl in
        rw e (put-inside out (files fd_out) (files fd_in) off_in off_out k h)

    module _ (left : ℕ) (r : Outcome (Unit {0}) × (ℕ → File) × List Answer)
        (apart : IsApart off_in off_out (out + left))
        (rest : Copied files1 (off_in + out) (off_out + out) left r) where
      -- What the rounds after it have copied is what stood in the source before it.
      later_bytes :
          r.0 ≡ ok tt
          → (j : ℕ) → j < left
          → (r.1 fd_out).byte (off_out + out + j) ≡ (files fd_in).byte (off_in + out + j)
      later_bytes h j inside =
          rest.1 h j inside ∙ round-outside fd_in (off_in + out + j) (source apart)
        where
          source :
              IsApart off_in off_out (out + left)
              → (fd_in ≡ fd_out → ⊥) ⊎ IsOutside off_out out (off_in + out + j)
          source (inl ne) = inl ne
          source (inr (inl before)) = inr (inl (omega (arith, inside, before)))
          source (inr (inr after)) = inr (inr (omega (arith, after)))

      pub round-Copied : Copied files off_in off_out (out + left) r
      round-Copied = (
        λ fd i h. rest.0 fd i (beyond fd i h) ∙ round-outside fd i (within fd i h),
        λ h k inside. elim (Bool-cases (ltb k out)) [
          | inl e ↦
              rest.0 fd_out (off_out + k) (inr (inl (ground arith))) ∙ round-inside k (ground arith)
          | inr e ↦
              let j = k - out in
              let o : off_out + k ≡ off_out + out + j = ground arith in
              let i : off_in + k ≡ off_in + out + j = ground arith in
              rw (o, i) (later_bytes h j (ground arith))
        ],
      )
        where
          within :
              (fd i : ℕ)
              → (fd ≡ fd_out → ⊥) ⊎ IsOutside off_out (out + left) i
              → (fd ≡ fd_out → ⊥) ⊎ IsOutside off_out out i
          within fd i (inl ne) = inl ne
          within fd i (inr (inl h)) = inr (inl h)
          within fd i (inr (inr h)) = inr (inr (omega (arith, h)))

          beyond :
              (fd i : ℕ)
              → (fd ≡ fd_out → ⊥) ⊎ IsOutside off_out (out + left) i
              → (fd ≡ fd_out → ⊥) ⊎ IsOutside (off_out + out) left i
          beyond fd i (inl ne) = inl ne
          beyond fd i (inr (inl h)) = inr (inl (omega (arith, h)))
          beyond fd i (inr (inr h)) = inr (inr (omega (arith, h)))

  pub IsApart-eq :
      (off_in off_out l l' : ℕ) → l ≡ l' → IsApart off_in off_out l → IsApart off_in off_out l'
  IsApart-eq off_in off_out l l' e h = rw e at h

  pub IsApart-rest :
      (off_in off_out out left : ℕ)
      → IsApart off_in off_out (out + left)
      → IsApart (off_in + out) (off_out + out) left
  IsApart-rest off_in off_out out left (inl ne) = inl ne
  IsApart-rest off_in off_out out left (inr (inl h)) = inr (inl (omega (arith, h)))
  IsApart-rest off_in off_out out left (inr (inr h)) = inr (inr (omega (arith, h)))

  pub Copied-none :
      (files : ℕ → File) (off_in off_out : ℕ) (answers : List Answer)
      → Copied files off_in off_out 0 (ok tt, files, answers)
  Copied-none files off_in off_out answers =
      (λ fd i h. refl, λ h k inside. absurd (omega (arith, inside)))
