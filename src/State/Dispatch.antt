-- ===== src/State/Dispatch.antt =====
-- packages/irc-client/src/state/dispatch.ts
pub mod Membership
pub mod Attributes
pub mod Names
pub mod Settings
pub mod Messages
