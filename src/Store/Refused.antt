-- ===== src/Store/Refused.antt =====
-- Requests that are refused.
use eblob.Key.{Key}
use eblob.Store.{Store}
