-- ===== src/Base/Results.antt =====
-- What a C function of the program returns: a value, or a negative error number.
use Prim.Native.Nat.{ℕ}
use mathlib.Core.Path.{◌≡◌, refl}
use mathlib.Core.Logic.{◌⊎◌, inl, inr}

-- The error numbers that the source names, `errno n` for what a failed system call left there, and
-- `assertion` for a call that does not return: an `assert` failed.
pub data Errno : Type 0 where
  enoent eexist enomem einval eintr enotsup ealready ebusy enoexec edeadlk eagain espipe epipe
        erange e2big enospc erofs ebadf eilseq efault :
      Errno
  errno : ℕ → Errno
  assertion : Errno

-- `ok a` is a return of 0 with the out parameter `a`; `err e` is a return of `-e`.
pub data Outcome {ℓ} (A : Type ℓ) : Type ℓ where
  ok : A → Outcome A
  err : Errno → Outcome A

pub Outcome-cases {ℓ} :
    {A : Type ℓ} (r : Outcome A) → ((e : Errno) × (r ≡ err e)) ⊎ ((a : A) × (r ≡ ok a))
Outcome-cases (ok a) = inr (a, refl)
Outcome-cases (err e) = inl (e, refl)

-- What the removal of a key returns, by what a lookup of it returned before: 0 or -ENOENT.
abbrev pub removed_reply {ℓ} : {A : Type ℓ} → Outcome A → Outcome (Unit {0})
removed_reply (ok a) = ok tt
removed_reply (err e) = err enoent

pub ok_inj {ℓ} : {A : Type ℓ} {a b : A} → ok a ≡ ok b → a ≡ b
ok_inj h = cc

-- The number of an error on Linux; an assertion has none.
abbrev pub number : Errno → ℕ
number enoent = 2
number eintr = 4
number enoexec = 8
number ebadf = 9
number e2big = 7
number eagain = 11
number enomem = 12
number efault = 14
number ebusy = 16
number eexist = 17
number einval = 22
number enospc = 28
number espipe = 29
number erofs = 30
number epipe = 32
number erange = 34
number edeadlk = 35
number eilseq = 84
number enotsup = 95
number ealready = 114
number (errno n) = n
number assertion = 0
