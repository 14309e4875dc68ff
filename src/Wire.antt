-- ===== src/Wire.antt =====
-- benchmarks/pgo/gen_workrequest.py: Bazel worker messages without a protobuf library, and the
-- reader of one response in benchmarks/java_partial_compile.py. A `bytes` value is a list of
-- numbers.
pub mod Varint
pub mod Fields
pub mod Request
pub mod Response
mod Tests
