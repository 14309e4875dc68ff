-- ===== src/Release/Extension/Tags.antt =====
-- elide/extensions.bzl: the tags that a run reads, and what it declares.
use rules_elide.Prelude.{Bool, List, ◌∷◌, ◌++◌}
use rules_elide.Prelude.Text.{Text}
use rules_elide.Prelude.Dict.{Dict}
use rules_elide.Release.Pins.{Platform}

pub record InstallTag : Type 0 where
  pub channel : Text
  pub python : Bool
  pub python_url_template : Text
  pub repo_prefix : Text
  pub url_template : Text
  pub version : Text

pub record UseTag : Type 0 where
  pub channel : Text
  pub integrity : Dict Text
  pub local_path : Text
  pub python_integrity : Dict Text
  pub python_url_template : Text
  pub repo_prefix : Text
  pub url_template : Text
  pub version : Text

-- A module of `ctx.modules`, with its tags.
pub record Module : Type 0 where
  pub is_root : Bool
  pub install : List InstallTag
  pub use_tags : List UseTag

-- `ctx.os`
pub record Host : Type 0 where
  pub name : Text
  pub arch : Text

pub record Download : Type 0 where
  pub name : Text
  pub version : Text
  pub channel : Text
  pub os : Text
  pub cpu : Text
  pub integrity : Text
  pub url_template : Text
  pub python_integrity : Text
  pub python_url_template : Text

pub data Repo : Type 0 where
  elide_download : Download → Repo
  elide_local : Text → Text → Text → Repo

pub record Hub : Type 0 where
  pub version : Text
  pub repo_prefix : Text
  pub platforms : List Text

-- The repositories, the hub `elide_toolchains` behind them, and whether the result is reproducible.
pub record Wiring : Type 0 where
  pub repos : List Repo
  pub hub : Hub
  pub reproducible : Bool

pub data ExtensionError : Type 0 where
  local_with_overlay use_incomplete overlay_incomplete overlay_platforms : ExtensionError
  unsupported_host : Text → Text → ExtensionError
  overlay_empty bad_platform unknown_version : Text → ExtensionError
  no_overlay : Text → Platform → ExtensionError

-- `"{os}_{cpu}".format(...)`
abbrev pub platform_key : Platform → Text
platform_key (os, cpu) = os ++ b'_' ∷ cpu
