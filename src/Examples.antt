-- ===== src/Examples.antt =====
-- Concrete runs of the program, and the theorems applied to them.
mod Fixtures
mod Transitions
mod Orders
mod Streams
mod Workers
mod Producer
mod Service
