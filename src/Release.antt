-- ===== src/Release.antt =====
-- elide/private/versions.bzl, elide/extensions.bzl, elide/private/hub.bzl and
-- elide/private/download.bzl: which release of Elide a build gets, and from where.
pub mod Semver
pub mod Pins
pub mod Urls
pub mod Extension
pub mod Hub
pub mod Download
mod Tests
