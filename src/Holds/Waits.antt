-- ===== src/Holds/Waits.antt =====
-- library/blob.c: that `eblob_base_wait_locked` loses no wake-up and returns.
use eblob.Base.{ℕ, ◌+◌, ◌*◌, ◌<◌, ◌≡◌}
use eblob.Holds.{Waiter, outside, asleep, woken, inside, Holds}

-- The waiting thread has the lock only while nobody holds the base, and it sleeps only while
-- somebody does: no wake-up is lost.
pub record IsSound (s : Holds) : Type 0 where
  pub alone : s.waiter ≡ inside → s.critness ≡ 0
  pub awaited : s.waiter ≡ asleep → 0 < s.critness

-- What is left to do, at most, until the waiting thread has the lock.
abbrev pub steps_of : Waiter → ℕ
steps_of outside = 1
steps_of asleep = 0
steps_of woken = 1
steps_of inside = 0

abbrev pub measure : Holds → ℕ
measure s = 2 * s.critness + steps_of s.waiter
