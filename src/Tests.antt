-- ===== src/Tests.antt =====
-- The theorems at concrete inputs, and runs of the code.
mod Data
mod Arrays
mod Paths
mod Checks
mod Config
mod Commit
mod Monitoring
mod Filters
mod Times
mod Subscriptions
mod YangPush
