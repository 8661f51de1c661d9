-- ===== src/Tests.antt =====
-- The theorems at concrete inputs, part by part of the program.
mod Messages
mod Names
mod Handshake
mod Guards
mod Client
mod Bots
