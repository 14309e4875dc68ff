-- ===== src/Release/Urls/BuiltIn.antt =====
-- elide/private/versions.bzl: the address of a release on GitHub.
use rules_elide.Prelude.{◌≡◌, ap, [], ◌++◌, append-nil, some}
use rules_elide.Prelude.Text.{Text, codes, text_eq}
use rules_elide.Prelude.Dict.{lookup}
use rules_elide.Release.Urls.{format, download_url, release_tag, archive_ext}

-- The archive of a release for a platform.
abbrev pub release_url : Text → Text → Text → Text
release_url version os cpu =
    codes "https://github.com/elide-dev/elide/releases/download/"
    ++ (release_tag version
        ++ (codes "/elide." ++ (os ++ (codes "-" ++ (cpu ++ (codes "." ++ archive_ext os))))))

pub download_url-release_url :
    (channel version os cpu : Text)
    → download_url [] channel version os cpu ≡ some (release_url version os cpu)
unfolding download_url format lookup text_eq
download_url-release_url channel version os cpu =
    ap
      (λ ext. some (
        codes "https://github.com/elide-dev/elide/releases/download/"
        ++ (release_tag version
            ++ (codes "/elide." ++ (os ++ (codes "-" ++ (cpu ++ (codes "." ++ ext))))))))
      (append-nil (archive_ext os))
