-- ===== src/Release/Download.antt =====
-- elide/private/download.bzl: the steps of `elide_download` and `elide_local`.
use rules_elide.Prelude.{true, false, List, [], ◌∷◌, ◌++◌, Option, none, some, map, if◌then◌else◌}
use rules_elide.Prelude.Text.{Text, codes, text_eq}
use rules_elide.Release.Urls.{binary_ext, download_url, is_empty, or_text, python_download_url}
use rules_elide.Release.Extension.Tags.{Download}

-- What the repository rule asks of its context, in order. The BUILD file is its template with the
-- path of the binary.
pub data Step : Type 0 where
  download_and_extract : Text → Text → Text → Text → Step
  make_executable : Text → Step
  symlink : Text → Step
  write_build : Text → Step

infixl 5 ◌>>=◌
abbrev ◌>>=◌ {ℓ κ} : {A : Type ℓ} {B : Type κ} → Option A → (A → Option B) → Option B
none >>= f = none
some a >>= f = f a

-- The wrapper scripts and helpers that ship without their executable bit.
executables : List Text
executables =
    map (λ name. codes "bin/" ++ name)
      (codes "elide"
        ∷ codes "google-java-format"
        ∷ codes "jar"
        ∷ codes "java"
        ∷ codes "javac"
        ∷ codes "javadoc"
        ∷ codes "javap"
        ∷ codes "kotlinc"
        ∷ codes "ktfmt"
        ∷ [])
    ++ (map (λ name. codes "lib/svm/bin/" ++ name)
          (codes "native-image" ∷ codes "native-image-configure" ∷ [])
        ++ codes "lib/jspawnhelper" ∷ [])

unfoldable pub chmod_steps : Text → List Step
unfolding executables
chmod_steps os = if text_eq os (codes "windows") then [] else map make_executable executables

-- `binary_path or ("bin/elide" + bin_ext)`
unfoldable pub binary_of : Text → Text → Text
binary_of binary_path os = or_text binary_path (codes "bin/elide" ++ binary_ext os)

-- The overlay behind the base, where there is a hash for it.
unfoldable pub overlay_steps : Download → Option (List Step)
overlay_steps d = elim (is_empty d.python_integrity) [
  | true ↦ some []
  | false ↦ python_download_url d.python_url_template d.channel d.version d.os d.cpu >>= λ url.
      some (
        download_and_extract url d.python_integrity []
          (codes "elide-python-" ++ (d.version ++ (codes "-" ++ (d.os ++ (codes "-" ++ d.cpu)))))
        ∷ [])
]

-- `_elide_download_impl`: `strip_prefix` and `binary_path` are attributes that the extension leaves
-- at their default, and none is the error of a template.
unfoldable pub download_steps : Text → Text → Download → Option (List Step)
download_steps strip_prefix binary_path d = do
  url ← download_url d.url_template d.channel d.version d.os d.cpu
  overlay ← overlay_steps d
  some (
      download_and_extract url d.integrity strip_prefix
        (codes "elide-" ++ (d.version ++ (codes "-" ++ (d.os ++ (codes "-" ++ d.cpu)))))
      ∷ (overlay ++ (chmod_steps d.os ++ write_build (binary_of binary_path d.os) ∷ [])))

-- `_elide_local_impl`, with the names in the directory if it exists; none is its failure.
unfoldable pub local_steps : Option (List Text) → Text → Text → Option (List Step)
local_steps none binary_path os = none
local_steps (some children) binary_path os =
    some (map symlink children ++ write_build (binary_of binary_path os) ∷ [])
