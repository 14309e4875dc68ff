-- ===== src/Worker/Signature.antt =====
-- elide/private/ic_worker/IncrementalWorker.java: `signature`. SHA-256, Base64 and the order of Java's
-- `String.compareTo` are parameters; File.pathSeparator is `:`.
pub mod Classpath
pub mod Frames
pub mod Laws
pub mod Covered
use rules_elide.Prelude.{
  ℕ, zero, suc, ◌+◌, ◌/◌, ◌%◌, ◌^◌, String, Bool, true, false, ◌||◌, List, [], ◌∷◌, ◌++◌, map,
  Option, none, some, length, drop, ◌==◌, if◌then◌else◌,
}
use rules_elide.Prelude.Text.{Text, codes, text_eq, starts_with, ends_with, has_text}
use rules_elide.Worker.Messages.{Utf8, Input, WorkRequest}

pub record Digests : Type 0 where
  pub utf8 : Utf8
  pub sha256 : List ℕ → List ℕ
  pub base64 : List ℕ → Text
  -- `compareTo` is at most 0.
  pub path_leb : Text → Text → Bool

-- `List.indexOf`: none is -1.
unfoldable pub index_of : Text → List Text → Option ℕ
index_of word [] = none
index_of word (t ∷ ts) =
    let later : Option ℕ = elim (index_of word ts) [ none ↦ none | some i ↦ some (i + 1) ] in
    if text_eq t word then some 0 else later

unfoldable pub any_text : (Text → Bool) → List Text → Bool
any_text test [] = false
any_text test (t ∷ ts) = test t || any_text test ts

-- An argument whose reads are not covered by the snapshots of the compiler.
unfoldable pub is_conservative : Text → Bool
is_conservative arg =
    starts_with arg (codes "-Xplugin")
    || starts_with arg (codes "-Xcompiler-plugin")
    || text_eq arg (codes "-P")
    || starts_with arg (codes "-P=")
    || starts_with arg (codes "-Xfriend-paths")
    || text_eq arg (codes "--plugins")
    || starts_with arg (codes "--plugins=")

-- `split` on the path separator, the part so far first.
unfoldable pub split_path : Text → Text → List Text
split_path part [] = part ∷ []
split_path part (c ∷ s) = if c == 58 then part ∷ split_path [] s else split_path (part ++ c ∷ []) s

unfoldable pub jars : List Text → List Text
jars [] = []
jars (entry ∷ entries) =
    let more = jars entries in if ends_with entry (codes ".jar") then entry ∷ more else more

-- The loop over the arguments from an index on.
unfoldable pub classpath_jars : List Text → List Text
classpath_jars [] = []
classpath_jars (a ∷ []) = []
classpath_jars (a ∷ b ∷ rest) =
    let next = classpath_jars rest in
    let skipped = classpath_jars (b ∷ rest) in
    if text_eq a (codes "-classpath") || text_eq a (codes "-cp")
    then jars (split_path [] b) ++ next
    else skipped

unfoldable pub classpath : List Text → List Text
classpath arguments =
    if any_text is_conservative arguments then [] else elim (index_of (codes "--") arguments) [
      | none ↦ classpath_jars arguments
      | some i ↦ classpath_jars (drop (i + 1) arguments)
    ]

-- `sorted`, which keeps the order of equal paths.
unfoldable pub insert_input : (Text → Text → Bool) → Input → List Input → List Input
insert_input leb i [] = i ∷ []
insert_input leb i (j ∷ js) = if leb i.path j.path then i ∷ j ∷ js else j ∷ insert_input leb i js

unfoldable pub sort_inputs : (Text → Text → Bool) → List Input → List Input
sort_inputs leb [] = []
sort_inputs leb (i ∷ is) = insert_input leb i (sort_inputs leb is)

-- An input that is left out of the signature.
unfoldable pub is_tracked_natively : List Text → Input → Bool
is_tracked_natively jars input =
    ends_with input.path (codes ".kt")
    || ends_with input.path (codes ".java")
    || has_text input.path jars

-- `hash`: the length as four bytes, the highest first, and the bytes.
unfoldable pub length_prefixed : List ℕ → List ℕ
length_prefixed blob =
    let n = length blob in n / 2 ^ 24 % 256 ∷ n / 2 ^ 16 % 256 ∷ n / 2 ^ 8 % 256 ∷ n % 256 ∷ blob

unfoldable pub frames : List (List ℕ) → List ℕ
frames [] = []
frames (blob ∷ blobs) = length_prefixed blob ++ frames blobs

module _ (digests : Digests) where
  open digests use {utf8, sha256, base64, path_leb}

  unfoldable pub input_blobs : List Text → List Input → List (List ℕ)
  input_blobs jars [] = []
  input_blobs jars (input ∷ inputs) =
      let more = input_blobs jars inputs in
      if is_tracked_natively jars input then more else utf8.encode input.path ∷ input.digest ∷ more

  -- What the digest covers, in its order.
  unfoldable pub signed_blobs : WorkRequest → List (List ℕ)
  signed_blobs request =
      map utf8.encode request.arguments
      ++ input_blobs (classpath request.arguments) (sort_inputs path_leb request.inputs)

  unfoldable pub signature : WorkRequest → Text
  signature request = base64 (sha256 (frames (signed_blobs request)))
