-- ===== src/Sbom/Command/Laws.antt =====
-- tools/sbom_enrich.py: what `main` leaves in the files.
use rules_elide.Prelude.{
  ℕ, ◌≡◌, ◌≢◌, refl, List, [], ◌∷◌, some, Result, ok, err, Result-cases, Option-cases, inl, inr,
  length, arith,
}
use rules_elide.Prelude.Text.{Text, text_eq_iff}
use rules_elide.Prelude.Dict.{Dict, lookup, insert, lookup-insert, insert_again}
use rules_elide.Sbom.Parse.{parse_bazel_deps}
use rules_elide.Sbom.Enrich.{Spdx, enrich}
use rules_elide.Sbom.Enrich.Laws.{enrich-enrich}
use rules_elide.Sbom.Command.{Json, CommandError, enriched, finish, main}

module _ {E : Type 0} (json : Json E) where
  open json use {Contents, load, read, dump}

  finish-failed :
      (spdx_path : Text) (files : Dict Contents) (r : Result CommandError (Spdx E × ℕ))
      {e : CommandError}
      → (finish json spdx_path files r).1 ≡ err e
      → (finish json spdx_path files r).0 ≡ files
  unfolding finish
  finish-failed spdx_path files (ok (spdx, n)) h = cc
  finish-failed spdx_path files (err e) h = refl

  -- A run that fails has changed no file.
  main-failed :
      (argv : List Text) (files : Dict Contents) {e : CommandError}
      → (main json argv files).1 ≡ err e
      → (main json argv files).0 ≡ files
  unfolding main
  main-failed [] files h = refl
  main-failed (a ∷ []) files h = refl
  main-failed (a ∷ b ∷ []) files h = refl
  main-failed (a ∷ b ∷ c ∷ []) files h = finish-failed b files (enriched json b c files) h
  main-failed (a ∷ b ∷ c ∷ d ∷ more) files h = refl

  -- What a run reads, and what it makes of it.
  abbrev Reads : Text → Text → Dict Contents → Spdx E → Contents → Text → Type 0
  Reads spdx_path module_path files spdx module_file text =
      ((document : Contents) × (lookup spdx_path files ≡ some document)
        × (load document ≡ some spdx))
      × (lookup module_path files ≡ some module_file)
      × (read module_file ≡ some text)

  enriched_of_Reads :
      (spdx_path module_path : Text) (files : Dict Contents) (spdx : Spdx E)
      (module_file : Contents) (text : Text)
      → Reads spdx_path module_path files spdx module_file text
      → enriched json spdx_path module_path files
        ≡ ok (enrich spdx (parse_bazel_deps text), length (parse_bazel_deps text))
  unfolding enriched
  enriched_of_Reads spdx_path module_path files spdx module_file text
        ((document, here, loaded), there, decoded) =
      rw (here, loaded, there, decoded) refl

  enriched-Reads :
      (spdx_path module_path : Text) (files : Dict Contents) {r : Spdx E × ℕ}
      → enriched json spdx_path module_path files ≡ ok r
      → (spdx : Spdx E) × (module_file : Contents) × (text : Text) × Reads spdx_path module_path
          files spdx module_file text
        × (r ≡ (enrich spdx (parse_bazel_deps text), length (parse_bazel_deps text)))
  unfolding enriched
  enriched-Reads spdx_path module_path files h = elim (Option-cases (lookup spdx_path files)) [
    | inl e ↦ cc (rw e at h)
    | inr (document, here) ↦ elim (Option-cases (load document)) [
      | inl e ↦ cc (rw (here, e) at h)
      | inr (spdx, loaded) ↦ elim (Option-cases (lookup module_path files)) [
        | inl e ↦ cc (rw (here, loaded, e) at h)
        | inr (module_file, there) ↦ elim (Option-cases (read module_file)) [
          | inl e ↦ cc (rw (here, loaded, there, e) at h)
          | inr (text, decoded) ↦ (
            spdx,
            module_file,
            text,
            ((document, here, loaded), there, decoded),
            cc (rw (here, loaded, there, decoded) at h),
          )
        ]
      ]
    ]
  ]

  -- The run once its inputs are known.
  finish-again :
      (spdx_path module_path : Text) (files : Dict Contents) (spdx : Spdx E)
      (module_file : Contents) (text : Text)
      → ((s : Spdx E) → load (dump s) ≡ some s)
      → spdx_path ≢ module_path
      → Reads spdx_path module_path files spdx module_file text
      → let done =
          finish json spdx_path files
            (ok (enrich spdx (parse_bazel_deps text), length (parse_bazel_deps text))) in
        finish json spdx_path done.0 (enriched json spdx_path module_path done.0) ≡ done
  unfolding finish
  finish-again spdx_path module_path files spdx module_file text same apart (here, there, decoded) =
      let after = enrich spdx (parse_bazel_deps text) in
      let kept : lookup module_path (insert spdx_path (dump after) files) ≡ some module_file =
        ground (
          arith,
          lookup-insert spdx_path module_path (dump after) files,
          text_eq_iff spdx_path module_path,
        ) in
      let new : lookup spdx_path (insert spdx_path (dump after) files) ≡ some (dump after) =
        ground (
          arith,
          lookup-insert spdx_path spdx_path (dump after) files,
          text_eq_iff spdx_path spdx_path,
        ) in
      rw
        (
          enriched_of_Reads spdx_path module_path (insert spdx_path (dump after) files) after
              module_file text ((dump after, new, same after), kept, decoded),
          enrich-enrich spdx (parse_bazel_deps text),
          insert_again spdx_path (dump after) files,
        )
        refl

  -- Where JSON reads back what it wrote and the two paths differ, a second run behind one that
  -- succeeds changes no file and prints the same line.
  main_again :
      (program spdx_path module_path line : Text) (files : Dict Contents)
      → ((s : Spdx E) → load (dump s) ≡ some s)
      → spdx_path ≢ module_path
      → (main json (program ∷ spdx_path ∷ module_path ∷ []) files).1 ≡ ok line
      → main json
          (program ∷ spdx_path ∷ module_path ∷ [])
          (main json (program ∷ spdx_path ∷ module_path ∷ []) files).0
        ≡ main json (program ∷ spdx_path ∷ module_path ∷ []) files
  unfolding main finish
  main_again program spdx_path module_path line files same apart success =
      elim (Result-cases (enriched json spdx_path module_path files)) [
        | inr (e, h) ↦ cc (rw h at success)
        | inl (r, h) ↦
            let (spdx, module_file, text, reads, made) =
              enriched-Reads spdx_path module_path files h in
            rw (h, made)
              (finish-again spdx_path module_path files spdx module_file text same apart reads)
      ]
