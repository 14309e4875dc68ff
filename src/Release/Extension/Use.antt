-- ===== src/Release/Extension/Use.antt =====
-- elide/extensions.bzl: `_host_platform` and `_wire_use`.
use rules_elide.Prelude.{
  Bool, true, false, not, ◌&&◌, ◌||◌, List, [], ◌∷◌, ◌++◌, Option, none, some, Result, ok, err,
  ◌>>=◌, ◌+◌, leb, map, if◌then◌else◌,
}
use rules_elide.Prelude.Text.{Text, codes, text_eq, sorted_set}
use rules_elide.Prelude.Dict.{Dict, lookup, keys}
use rules_elide.Prelude.Search.{split_first}
use rules_elide.Release.Pins.{Platform}
use rules_elide.Release.Urls.{or_text, is_empty}
use rules_elide.Release.Extension.Tags.{
  UseTag, Host, Repo, elide_download, elide_local, Wiring, ExtensionError, local_with_overlay,
  use_incomplete, overlay_incomplete, overlay_platforms, unsupported_host, overlay_empty,
  bad_platform, platform_key,
}

abbrev pub contains : Text → Text → Bool
contains s part = elim (split_first part s) [ none ↦ false | some found ↦ true ]

-- `s.lower()`, of ASCII letters.
unfoldable pub lower : Text → Text
lower = map (λ c. if leb b'A' c && leb c b'Z' then c + 32 else c)

unfoldable pub host_os : Text → Option Text
host_os name =
    if contains name (codes "linux")
    then some (codes "linux")
    else if contains name (codes "mac")
        || contains name (codes "darwin")
        || contains name (codes "osx")
    then some (codes "macos")
    else if contains name (codes "windows")
    then some (codes "windows")
    else none

unfoldable pub host_cpu : Text → Option Text
host_cpu arch =
    if text_eq arch (codes "amd64") || text_eq arch (codes "x86_64") || text_eq arch (codes "x64")
    then some (codes "amd64")
    else if text_eq arch (codes "aarch64") || text_eq arch (codes "arm64")
    then some (codes "arm64")
    else none

-- `_host_platform`, where both are known.
unfoldable pub host_platform : Host → Option Platform
host_platform host = elim (host_os (lower host.name)) [
  | none ↦ none
  | some os ↦ elim (host_cpu (lower host.arch)) [ none ↦ none | some cpu ↦ some (os, cpu) ]
]

abbrev pub fail_if : Bool → ExtensionError → Result ExtensionError (Unit {0})
fail_if true e = err e
fail_if false e = ok tt

abbrev pub is_empty_dict {ℓ} : {V : Type ℓ} → Dict V → Bool
is_empty_dict [] = true
is_empty_dict (entry ∷ d) = false

unfoldable pub texts_eq : List Text → List Text → Bool
texts_eq [] [] = true
texts_eq [] (t ∷ ts) = false
texts_eq (s ∷ ss) [] = false
texts_eq (s ∷ ss) (t ∷ ts) = text_eq s t && texts_eq ss ts

-- `key.split("_", 1)`, unpacked into two.
unfoldable pub split_key : Text → Option Platform
split_key key = split_first (codes "_") key

abbrev pub get_text : Text → Dict Text → Text
get_text key d = elim (lookup key d) [ none ↦ [] | some s ↦ s ]

-- The first overlay without a checksum.
unfoldable pub check_overlays : Dict Text → Result ExtensionError (Unit {0})
check_overlays [] = ok tt
check_overlays ((key, integrity) ∷ d) =
    let rest = check_overlays d in if is_empty integrity then err (overlay_empty key) else rest

-- The loop over `t.integrity`.
unfoldable pub use_downloads : UseTag → Dict Text → Result ExtensionError (List Repo)
use_downloads t [] = ok []
use_downloads t ((key, hash) ∷ d) =
    let rest = use_downloads t d in
    elim (split_key key) [
      | none ↦ err (bad_platform key)
      | some (os, cpu) ↦ rest >>= λ repos. ok (
          elide_download (record {
            name = t.repo_prefix ++ b'_' ∷ key;
            version = t.version;
            channel = t.channel;
            os = os;
            cpu = cpu;
            integrity = hash;
            url_template = t.url_template;
            python_integrity = get_text key t.python_integrity;
            python_url_template = t.python_url_template;
          })
          ∷ repos)
    ]

unfoldable pub wire_local : Host → UseTag → Result ExtensionError Wiring
wire_local host t = do
  _ ←
      fail_if (not (is_empty_dict t.python_integrity) || not (is_empty t.python_url_template))
        local_with_overlay
  elim (host_platform host) [
    | none ↦ err (unsupported_host host.name host.arch)
    | some (os, cpu) ↦ ok (record {
      repos = elide_local (t.repo_prefix ++ b'_' ∷ platform_key (os, cpu)) t.local_path os ∷ [];
      hub = record {
        version = or_text t.version (codes "local");
        repo_prefix = t.repo_prefix;
        platforms = platform_key (os, cpu) ∷ [];
      };
      reproducible = false;
    })
  ]

unfoldable pub wire_release : UseTag → Result ExtensionError Wiring
wire_release t = do
  _ ← fail_if (is_empty t.url_template || is_empty_dict t.integrity) use_incomplete
  _ ←
      fail_if
        (if is_empty_dict t.python_integrity
          then not (is_empty t.python_url_template)
          else is_empty t.python_url_template)
        overlay_incomplete
  _ ←
      fail_if
        (not (is_empty_dict t.python_integrity)
          && not (texts_eq (sorted_set (keys t.python_integrity)) (sorted_set (keys t.integrity))))
        overlay_platforms
  _ ← check_overlays t.python_integrity
  repos ← use_downloads t t.integrity
  ok (record {
    repos = repos;
    hub = record {
      version = or_text t.version (codes "custom");
      repo_prefix = t.repo_prefix;
      platforms = keys t.integrity;
    };
    reproducible = true;
  })

unfoldable pub wire_use : Host → UseTag → Result ExtensionError Wiring
wire_use host t = if is_empty t.local_path then wire_release t else wire_local host t
