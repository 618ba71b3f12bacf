-- ===== src/Tests.antt =====
-- Runs of the definitions at concrete inputs, and the theorems at inputs that meet their
-- hypotheses.
mod Samples
mod Caches
mod Filters
mod Backends
mod Indexes
mod Defrags
mod Binlogs
mod Transfers
mod Stores
mod Merges
mod Searches
mod Ranges
mod Waits
mod Applies
mod Generates
mod Iterates
