-- ===== src/Files/Transfers.antt =====
-- The loops around pwrite(2) and pread(2), whatever the system answers.
use eblob.Base.{
  ℕ, zero, suc, ◌+◌, ◌-◌, ◌≤◌, ◌<◌, min, ◌==◌, leb, List, [], ◌∷◌, ◌++◌, length, Outcome, ok, err,
  espipe, ok_inj, length-append, ◌≡◌, refl, sym, ap, ◌∙◌, arith, ◌⊎◌, inl, inr, Bool-cases,
}
use eblob.Files.{
  File, set, put, bytes_at, take, drop, Answer, moved, failed, write_ll, read_ll, available,
  prepend,
}

-- An offset that a write of `n` bytes at `off` does not reach.
abbrev pub IsOutside : ℕ → ℕ → ℕ → Type 0
IsOutside off n i = (i < off) ⊎ (off + n ≤ i)

IsOutside-part : (off m n l i : ℕ) → m + n ≡ l → IsOutside off l i → IsOutside off m i
IsOutside-part off m n l i e h = ground arith

IsOutside-rest : (off m n l i : ℕ) → m + n ≡ l → IsOutside off l i → IsOutside (off + m) n i
IsOutside-rest off m n l i e h = ground arith

pub put-outside :
    (bs : List ℕ) (f : File) (off i : ℕ)
    → IsOutside off (length bs) i
    → (put f off bs).byte i ≡ f.byte i
unfolding put
put-outside [] f off i h = refl
put-outside (b ∷ bs) f off i h = ground (arith, put-outside bs (set f off b) (suc off) i)

pub put-bytes_at : (bs : List ℕ) (f : File) (off : ℕ) → bytes_at (put f off bs) off (length bs) ≡ bs
unfolding put bytes_at
put-bytes_at [] f off = refl
put-bytes_at (b ∷ bs) f off =
    let kept = put-outside bs (set f off b) (suc off) off (inl (omega arith)) in
    let byte : (put (set f off b) (suc off) bs).byte off ≡ b = ground (arith, kept) in
    rw byte (ap (λ l. b ∷ l) (put-bytes_at bs (set f off b) (suc off)))

pub size-put : (bs : List ℕ) (f : File) (off : ℕ) → f.size ≤ (put f off bs).size
unfolding put
size-put [] f off = omega arith
size-put (b ∷ bs) f off = omega (arith, size-put bs (set f off b) (suc off))

pub put_reaches :
    (b : ℕ) (bs : List ℕ) (f : File) (off : ℕ) → off + length (b ∷ bs) ≤ (put f off (b ∷ bs)).size
unfolding put
put_reaches b [] f off = omega arith
put_reaches b (c ∷ bs) f off = omega (arith, put_reaches c bs (set f off b) (suc off))

put-append :
    (xs ys : List ℕ) (f : File) (off : ℕ)
    → put f off (xs ++ ys) ≡ put (put f off xs) (off + length xs) ys
unfolding put
put-append [] ys f off = ap (λ i. put f i ys) (omega arith)
put-append (x ∷ xs) ys f off =
    put-append xs ys (set f off x) (suc off)
    ∙ ap (λ i. put (put (set f off x) (suc off) xs) i ys) (omega arith)

take-drop : (n : ℕ) (bs : List ℕ) → take n bs ++ drop n bs ≡ bs
take-drop zero bs = refl
take-drop (suc n) [] = refl
take-drop (suc n) (b ∷ bs) = ap (λ l. b ∷ l) (take-drop n bs)

-- A call that returns 0 has written all of the bytes, in one piece.
pub write_ll-put :
    (answers : List Answer) (f : File) (off : ℕ) (bs : List ℕ)
    → (write_ll answers f off bs).0 ≡ ok tt
    → (write_ll answers f off bs).1 ≡ put f off bs
unfolding write_ll put
write_ll-put answers f off [] h = refl
write_ll-put [] f off (b ∷ bs) h = refl
write_ll-put (failed e ∷ answers) f off (b ∷ bs) h = absurd cc
write_ll-put (moved n ∷ answers) f off (b ∷ bs) h =
    let done = take n (b ∷ bs) in
    write_ll-put answers (put f off done) (off + length done) (drop n (b ∷ bs)) h
    ∙ (sym (put-append done (drop n (b ∷ bs)) f off) ∙ ap (put f off) (take-drop n (b ∷ bs)))

-- No call writes outside of the range it was given, also when it fails on the way.
pub write_ll-outside :
    (answers : List Answer) (f : File) (off : ℕ) (bs : List ℕ) (i : ℕ)
    → IsOutside off (length bs) i
    → (write_ll answers f off bs).1.byte i ≡ f.byte i
unfolding write_ll
write_ll-outside answers f off [] i h = refl
write_ll-outside [] f off (b ∷ bs) i h = put-outside (b ∷ bs) f off i h
write_ll-outside (failed e ∷ answers) f off (b ∷ bs) i h = refl
write_ll-outside (moved n ∷ answers) f off (b ∷ bs) i h =
    let done = take n (b ∷ bs) in
    let left = drop n (b ∷ bs) in
    let whole : length done + length left ≡ length (b ∷ bs) =
      sym (length-append done left) ∙ ap length (take-drop n (b ∷ bs)) in
    write_ll-outside answers (put f off done) (off + length done) left i
      (IsOutside-rest off _ _ _ i whole h)
    ∙ put-outside done f off i (IsOutside-part off _ _ _ i whole h)

bytes_at-append :
    (m n : ℕ) (f : File) (off : ℕ)
    → bytes_at f off m ++ bytes_at f (off + m) n ≡ bytes_at f off (m + n)
unfolding bytes_at
bytes_at-append zero n f off =
    let e : off + 0 ≡ off = omega arith in let e' : 0 + n ≡ n = omega arith in rw (e, e') refl
bytes_at-append (suc m) n f off =
    let e : off + suc m ≡ suc off + m = omega arith in
    let e' : suc m + n ≡ suc (m + n) = omega arith in
    rw (e, e') (ap (λ l. f.byte off ∷ l) (bytes_at-append m n f (suc off)))

prepend_ok :
    (bs out : List ℕ) (r : Outcome (List ℕ) × List Answer)
    → (prepend bs r).0 ≡ ok out
    → (more : List ℕ) × (r.0 ≡ ok more) × (out ≡ bs ++ more)
prepend_ok bs out (ok more, answers) h = (more, refl, sym (ok_inj h))
prepend_ok bs out (err e, answers) h = absurd cc

stopped : {bs : List ℕ} → Path (Outcome (List ℕ)) (err espipe) (ok bs) → ⊥
stopped h = cc

fits :
    (f : File) (off m n : ℕ)
    → let got = min m (available f off (suc n)) in
      (suc n - got ≡ 0) ⊎ (off + got + (suc n - got) ≤ f.size) → off + suc n ≤ f.size
fits f off m n h = ground arith

-- A read that returns 0 has got the bytes of the range, all of them, and the range lies in the file.
pub read_ll-bytes_at :
    (answers : List Answer) (f : File) (off n : ℕ) (bs : List ℕ)
    → (read_ll answers f off n).0 ≡ ok bs
    → (bs ≡ bytes_at f off n) × ((n ≡ 0) ⊎ (off + n ≤ f.size))
unfolding read_ll bytes_at
read_ll-bytes_at answers f off zero bs h = (sym (ok_inj h), inl refl)
read_ll-bytes_at [] f off (suc n) bs h = elim (Bool-cases (leb (off + suc n) f.size)) [
  | inl e ↦ (sym (ok_inj (rw (read_ll, e) at h)), inr (ground arith))
  | inr e ↦ absurd (ground arith)
]
read_ll-bytes_at (failed e ∷ answers) f off (suc n) bs h = absurd cc
read_ll-bytes_at (moved m ∷ answers) f off (suc n) bs h =
    let got = min m (available f off (suc n)) in
    elim (Bool-cases (got == 0)) [
      | inl e ↦ absurd (stopped (rw (read_ll, e) at h))
      | inr e ↦
          let (more, rest, joined) =
            prepend_ok (bytes_at f off got) bs (read_ll answers f (off + got) (suc n - got))
              (rw (read_ll, e) at h) in
          let tail = read_ll-bytes_at answers f (off + got) (suc n - got) more rest in
          let whole : got + (suc n - got) ≡ suc n = omega arith in
          (
            joined
                ∙ (ap (λ l. bytes_at f off got ++ l) tail.0
                    ∙ (bytes_at-append got (suc n - got) f off ∙ ap (bytes_at f off) whole)),
            inr (fits f off m n tail.1),
          )
    ]

pub put_size :
    (bs : List ℕ) (f : File) (off : ℕ) → 0 < length bs → off + length bs ≤ (put f off bs).size
put_size [] f off h = absurd (omega (arith, h))
put_size (b ∷ bs) f off h = put_reaches b bs f off
