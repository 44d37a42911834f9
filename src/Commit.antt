-- ===== src/Commit.antt =====
-- Confirmed commits: src/netconf_confirmed_commit.c.
pub mod Types
pub mod Directory
pub mod Files
pub mod Backup
pub mod Timer
pub mod Rollback
pub mod Rpc
