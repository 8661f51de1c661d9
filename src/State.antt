-- ===== src/State.antt =====
-- packages/irc-client/src/state: the store of the live state and the dispatcher that writes it.
pub mod Store
pub mod Handlers
pub mod Dispatch
pub mod Dispatcher
pub mod Bounds
pub mod Actions
pub mod Leaving
pub mod Identity
pub mod Renaming
