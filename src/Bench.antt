-- ===== src/Bench.antt =====
-- benchmarks/: the edits that the benchmarks make to the sources they measure.
pub mod Scenario
pub mod Edit
pub mod Matrix
pub mod Profile
mod Tests
