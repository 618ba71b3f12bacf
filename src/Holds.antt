-- ===== src/Holds.antt =====
-- library/blob.c: the holds of a base, `eblob_bctl_hold` and `eblob_bctl_release`, and the wait for
-- them to end, `eblob_base_wait_locked`.
--
-- Any threads hold and release, one thread waits. Each step is what a thread does under the lock of
-- the base; the waiting thread keeps the lock when it returns, and the others cannot step until it
-- has unlocked.
use eblob.Base.{ℕ, zero, suc, ◌+◌, ◌-◌, ◌<◌, ◌==◌, if◌then◌else◌, ◌≡◌, ◌≢◌}
pub mod Waits

-- Where the waiting thread is: not in the call, in `pthread_cond_wait`, woken up there but without
-- the lock yet, or past the loop, with the lock.
pub data Waiter : Type 0 where
  outside asleep woken inside : Waiter

-- The fields of `struct eblob_base_ctl`: `critness`, and what waits at `critness_wait`.
pub record Holds : Type 0 where
  pub critness : ℕ
  pub waiter : Waiter

-- `pthread_cond_broadcast`
abbrev pub broadcast : Waiter → Waiter
broadcast outside = outside
broadcast asleep = woken
broadcast woken = woken
broadcast inside = inside

-- `eblob_bctl_hold`
unfoldable pub bctl_hold : Holds → Holds
bctl_hold bctl = record bctl { critness = bctl.critness + 1 }

-- `eblob_bctl_release`, of a base that is held.
unfoldable pub bctl_release : Holds → Holds
bctl_release bctl =
    let critness = bctl.critness - 1 in
    record bctl {
      critness = critness;
      waiter = if critness == 0 then broadcast bctl.waiter else bctl.waiter;
    }

-- The loop of `eblob_base_wait_locked` at its test, with the lock: it ends or goes to sleep.
unfoldable pub base_wait_locked : Holds → Holds
base_wait_locked bctl = record bctl { waiter = if bctl.critness == 0 then inside else asleep }

-- The unlock that follows, in `eblob_base_wait` or in the caller.
unfoldable pub unlock : Holds → Holds
unlock bctl = record bctl { waiter = outside }

-- What the threads do, a wake-up without a broadcast included.
pub data Step : Holds → Holds → Type 0 where
  holds : (s : Holds) → s.waiter ≢ inside → Step s (bctl_hold s)
  releases : (s : Holds) → s.waiter ≢ inside → 0 < s.critness → Step s (bctl_release s)
  waits : (s : Holds) → s.waiter ≡ outside → Step s (base_wait_locked s)
  wakes : (s : Holds) → s.waiter ≡ woken → Step s (base_wait_locked s)
  wakes_early : (s : Holds) → s.waiter ≡ asleep → Step s (base_wait_locked s)
  unlocks : (s : Holds) → s.waiter ≡ inside → Step s (unlock s)

-- The steps without new holds: of the threads that hold the base, and of the one that waits.
pub data Drain : Holds → Holds → Type 0 where
  releases : (s : Holds) → s.waiter ≢ inside → 0 < s.critness → Drain s (bctl_release s)
  waits : (s : Holds) → s.waiter ≡ outside → Drain s (base_wait_locked s)
  wakes : (s : Holds) → s.waiter ≡ woken → Drain s (base_wait_locked s)

pub data Reached : Holds → Type 0 where
  created : (s : Holds) → s.critness ≡ 0 → s.waiter ≡ outside → Reached s
  later : {s t : Holds} → Reached s → Step s t → Reached t

-- So many steps without new holds.
pub data Drains (s : Holds) : ℕ → Holds → Type 0 where
  start : Drains s zero s
  next : {n : ℕ} {t u : Holds} → Drains s n t → Drain t u → Drains s (suc n) u
