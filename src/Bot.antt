-- ===== src/Bot.antt =====
-- packages/bot/src: who sent a command, who may run it, and what the bot remembers.
pub mod Glob
pub mod Identity
pub mod Permissions
pub mod CommandLine
pub mod Storage
pub mod Router
