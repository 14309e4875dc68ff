-- ===== src/Release/Extension/Made.antt =====
-- elide/private/download.bzl: the steps of a built-in release, without an overlay.
use rules_elide.Prelude.{
  ◌≡◌, ◌≢◌, ◌⊎◌, inl, inr, Option, arith, Bool-cases, refl, ap, ◌∙◌, true, false, List, [], ◌∷◌,
  ◌++◌, some, map,
}
use rules_elide.Prelude.Text.{Text, codes, text_eq, text_eq_iff}
use rules_elide.Prelude.Dict.{lookup}
use rules_elide.Release.Urls.{is_empty, download_url, release_tag, archive_ext, binary_ext}
use rules_elide.Release.Urls.BuiltIn.{release_url, download_url-release_url}
use rules_elide.Release.Download.{
  Step, download_and_extract, make_executable, write_build, chmod_steps, binary_of, download_steps,
  overlay_steps,
}
use rules_elide.Release.Extension.Tags.{Download}

-- The tag of a release on GitHub: three of them have a `v` before the version.
abbrev pub IsTag : Text → Text → Type 0
IsTag version tag =
    ((tag ≡ codes "v1.6.0") × (version ≡ codes "1.6.0"))
    ⊎ ((tag ≡ codes "v1.6.1") × (version ≡ codes "1.6.1"))
    ⊎ ((tag ≡ codes "v1.6.2") × (version ≡ codes "1.6.2"))
    ⊎ ((tag ≡ version)
        × (version ≢ codes "1.6.0")
        × (version ≢ codes "1.6.1")
        × (version ≢ codes "1.6.2"))

release_tag-IsTag : (version : Text) → IsTag version (release_tag version)
unfolding release_tag lookup
release_tag-IsTag version = ground (
  arith,
  text_eq_iff (codes "1.6.0") version,
  text_eq_iff (codes "1.6.1") version,
  text_eq_iff (codes "1.6.2") version,
)

-- The release's archive on GitHub is extracted, if it has the hash, at the root of the repository.
abbrev pub archive_step : Download → Text → Text → Step
archive_step d tag ext =
    download_and_extract
      (codes "https://github.com/elide-dev/elide/releases/download/"
        ++ (tag ++ (codes "/elide." ++ (d.os ++ (codes "-" ++ (d.cpu ++ (codes "." ++ ext)))))))
      d.integrity []
      (codes "elide-" ++ (d.version ++ (codes "-" ++ (d.os ++ (codes "-" ++ d.cpu)))))

-- The files of a release outside Windows that are run.
abbrev pub run_files : List Text
run_files =
    codes "bin/elide"
    ∷ codes "bin/google-java-format"
    ∷ codes "bin/jar"
    ∷ codes "bin/java"
    ∷ codes "bin/javac"
    ∷ codes "bin/javadoc"
    ∷ codes "bin/javap"
    ∷ codes "bin/kotlinc"
    ∷ codes "bin/ktfmt"
    ∷ codes "lib/svm/bin/native-image"
    ∷ codes "lib/svm/bin/native-image-configure"
    ∷ codes "lib/jspawnhelper"
    ∷ []

-- On Windows a zip archive and the BUILD file, elsewhere a tar archive, of which the files to run
-- are made executable, and the BUILD file.
abbrev pub IsMade : Download → Option (List Step) → Type 0
IsMade d steps =
    (tag : Text) × IsTag d.version tag
    × (((d.os ≡ codes "windows")
          × (steps
              ≡ some (archive_step d tag (codes "zip") ∷ write_build (codes "bin/elide.exe") ∷ [])))
        ⊎ ((d.os ≢ codes "windows")
            × (steps
                ≡ some (
                    archive_step d tag (codes "tgz")
                    ∷ (map make_executable run_files ++ write_build (codes "bin/elide") ∷ [])))))

built_in-steps :
    (d : Download)
    → d.url_template ≡ []
    → is_empty d.python_integrity ≡ true
    → download_steps [] [] d
      ≡ some (
          archive_step d (release_tag d.version) (archive_ext d.os)
          ∷ (chmod_steps d.os ++ write_build (binary_of [] d.os) ∷ []))
unfolding download_steps overlay_steps
built_in-steps d h k =
    let url : download_url d.url_template d.channel d.version d.os d.cpu
        ≡ some (release_url d.version d.os d.cpu) =
      ap (λ t. download_url t d.channel d.version d.os d.cpu) h
      ∙ download_url-release_url d.channel d.version d.os d.cpu in
    rw (url, k, download_steps, overlay_steps) refl

windows_steps :
    (d : Download) (tag : Text)
    → text_eq d.os (codes "windows") ≡ true
    → ◌≡◌ {A = Option (List Step)}
        (some (
          archive_step d tag (archive_ext d.os)
          ∷ (chmod_steps d.os ++ write_build (binary_of [] d.os) ∷ [])))
        (some (archive_step d tag (codes "zip") ∷ write_build (codes "bin/elide.exe") ∷ []))
unfolding archive_ext chmod_steps binary_of binary_ext
windows_steps d tag h = rw h refl

unix_steps :
    (d : Download) (tag : Text)
    → text_eq d.os (codes "windows") ≡ false
    → ◌≡◌ {A = Option (List Step)}
        (some (
          archive_step d tag (archive_ext d.os)
          ∷ (chmod_steps d.os ++ write_build (binary_of [] d.os) ∷ [])))
        (some (
          archive_step d tag (codes "tgz")
          ∷ (map make_executable run_files ++ write_build (codes "bin/elide") ∷ [])))
unfolding archive_ext chmod_steps binary_of binary_ext
unix_steps d tag h = rw h refl

pub built_in-IsMade :
    (d : Download)
    → d.url_template ≡ []
    → is_empty d.python_integrity ≡ true
    → IsMade d (download_steps [] [] d)
built_in-IsMade d h k = (release_tag d.version, release_tag-IsTag d.version, by_system)
  where
    by_system :
        ((d.os ≡ codes "windows")
          × (download_steps [] [] d
              ≡ some (
                  archive_step d (release_tag d.version) (codes "zip")
                  ∷ write_build (codes "bin/elide.exe")
                  ∷ [])))
        ⊎ ((d.os ≢ codes "windows")
            × (download_steps [] [] d
                ≡ some (
                    archive_step d (release_tag d.version) (codes "tgz")
                    ∷ (map make_executable run_files ++ write_build (codes "bin/elide") ∷ []))))
    by_system = elim (Bool-cases (text_eq d.os (codes "windows"))) [
      | inl windows ↦ inl (
        (text_eq_iff d.os (codes "windows")).0 windows,
        built_in-steps d h k ∙ windows_steps d (release_tag d.version) windows,
      )
      | inr other ↦ inr (
        (λ e. cc (other, (text_eq_iff d.os (codes "windows")).1 e)),
        built_in-steps d h k ∙ unix_steps d (release_tag d.version) other,
      )
    ]
