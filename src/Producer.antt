-- ===== src/Producer.antt =====
-- cmd/producer: a generator of order events for load and recovery tests, and its publishing.
pub mod Config
pub mod Event
pub mod Generator
pub mod Phases
pub mod Plan
pub mod Emission
pub mod Follows
pub mod Scripts
pub mod Tallies
pub mod Counts
pub mod PlanCounts
pub mod Refinement
pub mod Validated
pub mod Totals
pub mod Publish
pub mod Batches
pub mod Published
pub mod Command
pub mod Identities
pub mod Labels
pub mod Runs
pub mod Emitted
pub mod Written
