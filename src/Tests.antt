-- ===== src/Tests.antt =====
-- A server in memory, and runs on it.
mod Memory
mod Caddy
mod Values
mod Index
mod Coding
mod Health
mod Queue
mod Probes
mod Locks
mod Final
mod Limit
mod Settings
