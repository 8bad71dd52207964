-- ===== src/Queue.antt =====
-- internal/queue/redis_stream.go: the stream's messages, their fields, and the calls of Redis.
pub mod Message
pub mod Fields
pub mod RoundTrip
pub mod Calls
pub mod Claims
pub mod ClaimBounds
