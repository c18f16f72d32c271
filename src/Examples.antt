-- ===== src/Examples.antt =====
-- The theorems applied to concrete inputs.
mod Data
mod Core
mod Scheduler
mod Filesystem
mod Persistence
mod Config
mod Engine
mod Finish
mod Cli
mod Json
mod Codec
mod Crypto
mod Manager
mod Single
mod Recovery
