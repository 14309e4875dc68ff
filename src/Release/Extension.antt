-- ===== src/Release/Extension.antt =====
-- elide/extensions.bzl: the module extension. A run is the repositories that it declares, or the
-- message that it fails with; one that fails declares nothing.
pub mod Tags
pub mod Use
pub mod Install
pub mod Pinned
pub mod Collect
pub mod Targets
pub mod Laws
pub mod Runs
pub mod Overlaid
pub mod Installs
pub mod Toolchains
pub mod Made
pub mod Fetches
pub mod Overlays
pub mod Own
