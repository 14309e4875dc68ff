-- ===== src/Worker.antt =====
-- elide/private/ic_worker: the incremental compile worker, in Java. A `byte` is its value from 0 to
-- 255, a `long` its value modulo 2 ^ 64, an `int` its value modulo 2 ^ 32.
pub mod Codec
pub mod Messages
pub mod Signature
pub mod Incremental
pub mod Serve
mod Tests
mod Runs
mod Streams
