-- ===== src/Tests.antt =====
-- The properties at concrete inputs, one module for each part of the program.
mod Wire
mod Cache
mod Engine
mod Registry
mod Migration
mod Rest
mod Client
mod Names
mod Keys
mod Encryption
