-- ===== src/Entities.antt =====
-- packages/irc-client/src/entities: the live objects of the state, a module for each.
pub mod User
pub mod Member
pub mod MemberList
pub mod Channel
pub mod Server
pub mod Bounds
