-- ===== src/Nacm.antt =====
-- src/netconf_acm.c and src/netconf_acm.h: NETCONF access control (NACM, RFC 8341).
pub mod Types
pub mod StrArr
pub mod Path
pub mod GroupMatch
pub mod Access
pub mod Users
pub mod Operation
pub mod ReadFilter
pub mod Diff
pub mod PushUpdate
pub mod Bypass
pub mod Ordered
pub mod Params
pub mod Groups
pub mod RuleLists
pub mod Rules
pub mod Events
