-- ===== src/Monitoring.antt =====
-- internal/monitoring/metrics.go
pub mod Collector
pub mod Stats
pub mod Answers
