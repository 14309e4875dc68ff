-- ===== src/Sbom/Command.antt =====
-- tools/sbom_enrich.py: `main`, over the files as a dict from paths. JSON is a parameter: of a
-- document it gives the parts that `enrich` reads and writes, and a package or relationship with
-- just the fields of one that `enrich` adds counts as added.
pub mod Laws
use rules_elide.Prelude.{ℕ, List, [], ◌∷◌, ◌++◌, Option, none, some, Result, ok, err, ◌>>=◌, length}
use rules_elide.Prelude.Text.{Text, codes}
use rules_elide.Prelude.Decimal.{decimal}
use rules_elide.Prelude.Dict.{Dict, lookup, insert}
use rules_elide.Sbom.Parse.{parse_bazel_deps}
use rules_elide.Sbom.Enrich.{Spdx, enrich}

pub record Json (E : Type 0) : Type 1 where
  -- The bytes of a file.
  pub Contents : Type 0
  -- `json.load(f)`; none raises.
  pub load : Contents → Option (Spdx E)
  -- `f.read()`, of UTF-8; none raises.
  pub read : Contents → Option Text
  -- `json.dump(spdx, f, indent=2)` and the line feed behind it.
  pub dump : Spdx E → Contents

pub data CommandError : Type 0 where
  usage not_json not_utf8 : CommandError
  missing_file : Text → CommandError

abbrev pub or_raise {ℓ} : {A : Type ℓ} → CommandError → Option A → Result CommandError A
or_raise e none = err e
or_raise e (some a) = ok a

module _ {E : Type 0} (json : Json E) where
  open json use {Contents, load, read, dump}

  -- What `main` does before it opens a file for writing: the enriched document, and `len(deps)`.
  unfoldable pub enriched : Text → Text → Dict Contents → Result CommandError (Spdx E × ℕ)
  enriched spdx_path module_path files = do
    document ← or_raise (missing_file spdx_path) (lookup spdx_path files)
    spdx ← or_raise not_json (load document)
    module_file ← or_raise (missing_file module_path) (lookup module_path files)
    text ← or_raise not_utf8 (read module_file)
    let deps = parse_bazel_deps text
    ok (enrich spdx deps, length deps)

  unfoldable pub printed : Text → ℕ → Text
  printed spdx_path n =
      codes "enriched "
      ++ (spdx_path ++ (codes " with " ++ (decimal n ++ codes " bazel_dep package(s)")))

  unfoldable pub finish :
      Text
      → Dict Contents
      → Result CommandError (Spdx E × ℕ)
      → Dict Contents × Result CommandError Text
  finish spdx_path files (ok (spdx, n)) =
      (insert spdx_path (dump spdx) files, ok (printed spdx_path n))
  finish spdx_path files (err e) = (files, err e)

  -- The files afterwards, and the line printed or the exception.
  unfoldable pub main : List Text → Dict Contents → Dict Contents × Result CommandError Text
  main (program ∷ spdx_path ∷ module_path ∷ []) files =
      finish spdx_path files (enriched spdx_path module_path files)
  main argv files = (files, err usage)
