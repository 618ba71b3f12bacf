-- ===== src/Store/Frames.antt =====
-- What a step leaves as it is, through the steps that it is made of.
use eblob.Base.{
  ℕ, ◌+◌, not, ◌&&◌, leb, ◌==◌, ◌^◌, Option, none, some, List, length, ◌≡◌, refl, ◌∙◌, inl, inr,
  Bool-cases, Outcome-cases,
}
use eblob.Store.{Store, Step, ◌>>=◌, ◌>>◌, pwrite, mark_index_removed, ctl_remove}
use eblob.Files.Headers.{le64}

-- A step leaves what a view of the store sees.
abbrev pub Keeps {ℓ} : {F : Type ℓ} {A : Type 0} → (Store → F) → Step A → Type ℓ
Keeps view m = (s : Store) → view (m s).1 ≡ view s

pub bind-Keeps {ℓ} :
    {F : Type ℓ} {A B : Type 0} (view : Store → F) (m : Step A) (f : A → Step B)
    → Keeps view m
    → ((a : A) → Keeps view (f a))
    → Keeps view (m >>= f)
bind-Keeps view m f hm hf s = elim (Outcome-cases (m s).0) [
  | inl (e, r) ↦ rw (◌>>=◌, r) (hm s)
  | inr (a, r) ↦ rw (◌>>=◌, r) (hf a (m s).1 ∙ hm s)
]

pub then-Keeps {ℓ} :
    {F : Type ℓ} {A B : Type 0} (view : Store → F) (m : Step A) (k : Step B)
    → Keeps view m
    → Keeps view k
    → Keeps view (m >> k)
then-Keeps view m k hm hk = bind-Keeps view m (λ _. k) hm (λ _. hk)

-- A write to a file leaves the cache as it is.
pwrite_cache :
    (fd : Option ℕ) (off : ℕ) (bytes : List ℕ) → Keeps (λ s. s.cache) (pwrite fd off bytes)
unfolding pwrite
pwrite_cache none off bytes s = refl
pwrite_cache (some d) off bytes s =
    elim (Bool-cases (not (length bytes == 0) && leb (2 ^ 63) off)) [
      | inl e ↦ rw e refl
      | inr e ↦ rw e refl
    ]

pub mark_index_removed_cache :
    (fd : Option ℕ) (off : ℕ) → Keeps (λ s. s.cache) (mark_index_removed fd off)
unfolding mark_index_removed
mark_index_removed_cache fd off = pwrite_cache fd (off + 64) (le64 ctl_remove)
