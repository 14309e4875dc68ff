-- ===== src/Wire/Request.antt =====
-- benchmarks/pgo/gen_workrequest.py: `request` and `main`. The UTF-8 encoder, SHA-256, the file
-- system and the JSON reader are parameters.
pub mod Laws
use rules_elide.Prelude.{
  ℕ, zero, suc, ◌+◌, String, ◌≡◌, Bool, List, [], ◌∷◌, ◌++◌, Option, none, some, Result, ok, err,
  ◌>>=◌, length, if◌then◌else◌,
}
use text.Mathlib.Text.{◌==◌ as str_eq}
use rules_elide.Wire.Varint.{WireError, missing_file, usage, varint}
use rules_elide.Wire.Fields.{field}

pub record Host : Type 0 where
  -- `str.encode()`
  pub encode : String → List ℕ
  -- `hashlib.sha256(data).digest()`
  pub sha256 : List ℕ → List ℕ
  -- `Path(path).read_bytes()`; none raises FileNotFoundError.
  pub read_bytes : String → Option (List ℕ)
  -- `json.loads(Path(path).read_text())`, a list of paths.
  pub read_paths : String → Option (List String)

module _ (host : Host) where
  open host use {encode, sha256, read_bytes, read_paths}

  join_arguments : List String → List ℕ
  join_arguments [] = []
  join_arguments (a ∷ rest) = field 1 (encode a) ++ join_arguments rest

  -- The loop over `inputs`, from the message so far.
  add_inputs : List ℕ → List String → Result WireError (List ℕ)
  add_inputs msg [] = ok msg
  add_inputs msg (path ∷ rest) = elim (read_bytes path) [
    | none ↦ err missing_file
    | some contents ↦
        let entry = field 1 (encode path) ++ field 2 (sha256 contents) in
        add_inputs (msg ++ field 2 entry) rest
  ]

  unfoldable pub request : List String → List String → Result WireError (List ℕ)
  unfolding join_arguments add_inputs
  request arguments inputs = do
    msg ← add_inputs (join_arguments arguments) inputs
    ok (varint (length msg) ++ msg)

  -- `sys.argv[1:]`, to the bytes on standard output.
  unfoldable pub main : List String → Result WireError (List ℕ)
  unfolding request
  main [] = request [] []
  main (a ∷ []) = if str_eq a "--inputs-json" then err usage else request (a ∷ []) []
  main (a ∷ b ∷ []) = if str_eq a "--inputs-json" then err usage else request (a ∷ b ∷ []) []
  main (a ∷ b ∷ c ∷ rest) =
      if str_eq a "--inputs-json"
      then (if str_eq c "--"
          then elim (read_paths b) [ none ↦ err missing_file | some inputs ↦ request rest inputs ]
          else err usage)
      else request (a ∷ b ∷ c ∷ rest) []
