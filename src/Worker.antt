-- ===== src/Worker.antt =====
-- internal/worker: the pool's and the reclaimer's handling of messages.
pub mod Interfaces
pub mod Simulator
pub mod Pool
pub mod Reclaimer
pub mod Setup
pub mod System
pub mod Interleavings
pub mod Delivery
pub mod Runs
pub mod Script
pub mod Scripted
