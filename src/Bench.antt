-- ===== src/Bench.antt =====
-- The benchmark programs of bench/, as far as they compute: what they measure, keep and record.
pub mod Timing
pub mod Options
pub mod Cpu
pub mod Report
pub mod Latency
pub mod Throughput
pub mod Micro
pub mod Smoke
mod Tests
mod ReportTests
