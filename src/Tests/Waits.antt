-- ===== src/Tests/Waits.antt =====
-- A wait for one hold.
use eblob.Base.{ℕ}
use eblob.Holds.{Waiter, Holds}

abbrev state : ℕ → Waiter → Holds
state critness waiter = record { critness = critness; waiter = waiter }
