-- ===== src/Wire/Request/Laws.antt =====
-- What a request holds, read back by the same module.
use rules_elide.Prelude.{
  ℕ, ◌≡◌, refl, ap, ◌∙◌, sym, String, List, [], ◌∷◌, ◌++◌, map, append-nil, append_assoc, none,
  some, ok, err, length, All,
}
use rules_elide.Wire.Varint.{varint, missing_file}
use rules_elide.Wire.Fields.{field, fields}
use rules_elide.Wire.Fields.Laws.{Fits, as_bytes, join_fields}
use rules_elide.Wire.Fields.Numbers.{fields-join_fields}
use rules_elide.Wire.Request.{Host, join_arguments, add_inputs, request}

module _ (host : Host) where
  open host use {encode, sha256, read_bytes}

  -- The two fields of an input's entry.
  abbrev pub input_fields : String × List ℕ → List (ℕ × List ℕ)
  input_fields (path, contents) = (1, encode path) ∷ (2, sha256 contents) ∷ []

  abbrev pub argument_field : String → ℕ × List ℕ
  argument_field a = (1, encode a)

  abbrev pub input_field : String × List ℕ → ℕ × List ℕ
  input_field input = (2, join_fields (input_fields input))

  -- Every input is a file with these contents.
  abbrev pub Present : List (String × List ℕ) → Type 0
  Present [] = Unit
  Present ((path, contents) ∷ rest) = (read_bytes path ≡ some contents) × Present rest

  abbrev pub paths : List (String × List ℕ) → List String
  paths [] = []
  paths ((path, contents) ∷ rest) = path ∷ paths rest

  -- What a request holds: its arguments, then an entry for each input.
  abbrev pub contents_of : List String → List (String × List ℕ) → List (ℕ × List ℕ)
  contents_of arguments inputs = map argument_field arguments ++ map input_field inputs

  join_arguments-fields :
      (arguments : List String) (more : List (ℕ × List ℕ))
      → join_arguments host arguments ++ join_fields more
        ≡ join_fields (map argument_field arguments ++ more)
  unfolding join_arguments join_fields
  join_arguments-fields [] more = refl
  join_arguments-fields (a ∷ rest) more =
      append_assoc (field 1 (encode a)) (join_arguments host rest) (join_fields more)
      ∙ ap (λ t. field 1 (encode a) ++ t) (join_arguments-fields rest more)

  add_inputs-fields :
      (msg : List ℕ) (inputs : List (String × List ℕ))
      → Present inputs
      → add_inputs host msg (paths inputs) ≡ ok (msg ++ join_fields (map input_field inputs))
  unfolding add_inputs join_fields
  add_inputs-fields msg [] present = ap ok (sym (append-nil msg))
  add_inputs-fields msg ((path, contents) ∷ rest) (here, there) =
      let entry = field 2 (field 1 (encode path) ++ field 2 (sha256 contents)) in
      rw here (
        add_inputs-fields (msg ++ entry) rest there
        ∙ ap ok (append_assoc msg entry _ ∙ rw append-nil))

  pub request_bytes :
      (arguments : List String) (inputs : List (String × List ℕ))
      → Present inputs
      → request host arguments (paths inputs)
        ≡ (let msg = join_fields (contents_of arguments inputs) in ok (varint (length msg) ++ msg))
  unfolding request
  request_bytes arguments inputs present = rw (
    add_inputs-fields (join_arguments host arguments) inputs present,
    join_arguments-fields arguments (map input_field inputs),
  )

  -- The bytes of a request are its length and a message, and the message holds the arguments in
  -- order and then an entry for each input, with its path and the digest of its contents.
  pub request-readable :
      (arguments : List String) (inputs : List (String × List ℕ))
      → Present inputs
      → All Fits (contents_of arguments inputs)
      → (msg : List ℕ) × (request host arguments (paths inputs) ≡ ok (varint (length msg) ++ msg))
        × (fields msg ≡ ok (map as_bytes (contents_of arguments inputs)))
  request-readable arguments inputs present fit = (
    join_fields (contents_of arguments inputs),
    request_bytes arguments inputs present,
    fields-join_fields (contents_of arguments inputs) fit,
  )

  add_inputs-missing :
      (msg : List ℕ) (front : List (String × List ℕ)) (path : String) (back : List String)
      → Present front
      → read_bytes path ≡ none
      → add_inputs host msg (paths front ++ path ∷ back) ≡ err missing_file
  unfolding add_inputs
  add_inputs-missing msg [] path back present absent = rw absent
  add_inputs-missing msg ((first, contents) ∷ rest) path back (here, there) absent =
      let entry = field 2 (field 1 (encode first) ++ field 2 (sha256 contents)) in
      rw here (add_inputs-missing (msg ++ entry) rest path back there absent)

  -- A request fails when one of its inputs cannot be read, wherever it stands.
  request-missing :
      (arguments : List String) (front : List (String × List ℕ)) (path : String)
      (back : List String)
      → Present front
      → read_bytes path ≡ none
      → request host arguments (paths front ++ path ∷ back) ≡ err missing_file
  unfolding request
  request-missing arguments front path back present absent =
      rw (add_inputs-missing (join_arguments host arguments) front path back present absent)
