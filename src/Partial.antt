-- ===== src/Partial.antt =====
-- benchmarks/java_partial_compile.py: partial Java compilation behind a compiler worker.
pub mod Stream
pub mod Merge
mod Tests
