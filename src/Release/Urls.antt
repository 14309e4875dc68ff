-- ===== src/Release/Urls.antt =====
-- elide/private/versions.bzl: platforms, release tags and download addresses.
pub mod BuiltIn
use rules_elide.Prelude.{
  Bool, true, false, List, [], ◌∷◌, ◌++◌, Option, none, some, ◌==◌, if◌then◌else◌,
}
use rules_elide.Prelude.Text.{Text, codes, text_eq}
use rules_elide.Prelude.Dict.{Dict, lookup}
use rules_elide.Prelude.Search.{replace}
use rules_elide.Release.Pins.{Platform, linux_amd64, linux_arm64, macos_arm64, windows_amd64}

-- `PLATFORMS`
abbrev pub platforms : List Platform
platforms = linux_amd64 ∷ linux_arm64 ∷ macos_arm64 ∷ windows_amd64 ∷ []

-- `OS_CONSTRAINTS` and `CPU_CONSTRAINTS`
abbrev pub os_constraints : Dict Text
os_constraints =
    (codes "linux", codes "@platforms//os:linux")
    ∷ (codes "macos", codes "@platforms//os:macos")
    ∷ (codes "windows", codes "@platforms//os:windows")
    ∷ []

abbrev pub cpu_constraints : Dict Text
cpu_constraints =
    (codes "amd64", codes "@platforms//cpu:x86_64")
    ∷ (codes "arm64", codes "@platforms//cpu:aarch64")
    ∷ []

abbrev pub default_channel : Text
default_channel = codes "nightly"

abbrev pub release_tags : Dict Text
release_tags =
    (codes "1.6.0", codes "v1.6.0")
    ∷ (codes "1.6.1", codes "v1.6.1")
    ∷ (codes "1.6.2", codes "v1.6.2")
    ∷ []

unfoldable pub release_tag : Text → Text
release_tag version = elim (lookup version release_tags) [ none ↦ version | some tag ↦ tag ]

abbrev pub default_version : Text
default_version = codes "1.6.2"

abbrev pub default_url_template : Text
default_url_template =
    codes "https://github.com/elide-dev/elide/releases/download/{version}/elide.{os}-{cpu}.{ext}"

unfoldable pub archive_ext : Text → Text
archive_ext os = if text_eq os (codes "windows") then codes "zip" else codes "tgz"

unfoldable pub binary_ext : Text → Text
binary_ext os = if text_eq os (codes "windows") then codes ".exe" else []

-- Where `format` stands in its template: outside of a field, behind `{`, behind `}`, or in the name
-- of a field.
pub data Place : Type 0 where
  outside opened closed : Place
  in_field : Text → Place

abbrev pub write : Text → Option Text → Option Text
write s none = none
write s (some t) = some (s ++ t)

-- `template.format(...)` with named values; none is the error of a bad field.
unfoldable pub format : Dict Text → Place → Text → Option Text
format values outside [] = some []
format values opened [] = none
format values closed [] = none
format values (in_field name) [] = none
format values outside (c ∷ s) = elim (c == b'{') [
  | true ↦ format values opened s
  | false ↦ elim (c == b'}') [
    | true ↦ format values closed s
    | false ↦ write (c ∷ []) (format values outside s)
  ]
]
format values opened (c ∷ s) = elim (c == b'{') [
  | true ↦ write (b'{' ∷ []) (format values outside s)
  | false ↦ elim (c == b'}') [ true ↦ none | false ↦ format values (in_field (c ∷ [])) s ]
]
format values closed (c ∷ s) = elim (c == b'}') [
  | true ↦ write (b'}' ∷ []) (format values outside s)
  | false ↦ none
]
format values (in_field name) (c ∷ s) = elim (c == b'}') [
  | true ↦ elim (lookup name values) [ none ↦ none | some v ↦ write v (format values outside s) ]
  | false ↦ elim (c == b'{') [ true ↦ none | false ↦ format values (in_field (name ++ c ∷ [])) s ]
]

-- `a or b` on texts.
abbrev pub or_text : Text → Text → Text
or_text [] b = b
or_text (c ∷ s) b = c ∷ s

abbrev pub is_empty : Text → Bool
is_empty [] = true
is_empty (c ∷ s) = false

abbrev pub url_values : Text → Text → Text → Text → Dict Text
url_values channel version os cpu =
    (codes "channel", or_text channel default_channel)
    ∷ (codes "version", version)
    ∷ (codes "os", os)
    ∷ (codes "cpu", cpu)
    ∷ (codes "ext", archive_ext os)
    ∷ []

unfoldable pub download_url : Text → Text → Text → Text → Text → Option Text
download_url url_template channel version os cpu =
    format
      (url_values channel (if is_empty url_template then release_tag version else version) os cpu)
      outside (or_text url_template default_url_template)

unfoldable pub python_download_url : Text → Text → Text → Text → Text → Option Text
python_download_url [] channel version os cpu = elim (download_url [] channel version os cpu) [
  | none ↦ none
  | some url ↦ some (replace url (codes "/elide.") (codes "/elide.python."))
]
python_download_url (c ∷ url_template) channel version os cpu =
    download_url (c ∷ url_template) channel version os cpu
