-- ===== src/Sbom.antt =====
-- tools/sbom_enrich.py: the bazel_dep closure of MODULE.bazel in an SPDX document.
pub mod Parse
pub mod Enrich
pub mod Command
mod Tests
