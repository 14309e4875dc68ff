-- ===== src/Worker/Codec.antt =====
-- elide/private/ic_worker/WorkerProtocol.java: the protobuf reader `Cursor`, `field` and `fields`, the
-- writers and `read`. A cursor is the bytes from its position on.
pub mod Local
pub mod Nested
pub mod Message
pub mod Total
use rules_elide.Prelude.{
  ℕ, zero, suc, ◌+◌, ◌-◌, ◌*◌, ◌/◌, ◌%◌, ◌^◌, bit_and, bit_or, Bool, true, false, ◌||◌, ◌&&◌, List,
  [], ◌∷◌, ◌++◌, Option, none, some, Result, ok, err, ◌>>=◌, length, take, drop, ltb, leb, ◌==◌,
  if◌then◌else◌,
}

-- `EOFException` and `IOException` by their messages. `out_of_fuel` is no exception of the program:
-- it ends a recursion of the model.
pub data CodecError : Type 0 where
  truncated_varint truncated_field invalid_varint nesting_limit invalid_tag : CodecError
  mismatched_group unexpected_end_group invalid_wire_type : CodecError
  invalid_length truncated_length message_too_long truncated_message malformed_text : CodecError
  out_of_fuel : CodecError

-- `Cursor.varint`: the rounds that are left, at the current `shift`.
unfoldable pub varint_rounds : ℕ → ℕ → ℕ → List ℕ → Result CodecError (ℕ × List ℕ)
varint_rounds zero shift result bytes = err invalid_varint
varint_rounds (suc rounds) shift result [] = err truncated_varint
varint_rounds (suc rounds) shift result (value ∷ bytes) =
    let result' = bit_or result (bit_and value 127 * 2 ^ shift) in
    let more = varint_rounds rounds (shift + 7) result' bytes in
    if shift == 63 && ltb 1 value
    then err invalid_varint
    else if ltb value 128
    then ok (result', bytes)
    else more

unfoldable pub cursor_varint : List ℕ → Result CodecError (ℕ × List ℕ)
cursor_varint bytes = varint_rounds 10 0 0 bytes

-- `Cursor.skip`, with the bytes that it passes. A negative length is 2 ^ 63 at least.
unfoldable pub cursor_skip : ℕ → List ℕ → Result CodecError (List ℕ × List ℕ)
cursor_skip n bytes =
    if leb (2 ^ 63) n || ltb (length bytes) n
    then err truncated_field
    else ok (take n bytes, drop n bytes)

pub record Field : Type 0 where
  pub number : ℕ
  pub wire : ℕ
  pub scalar : ℕ
  pub bytes : List ℕ
  pub raw : List ℕ

-- The bytes of `input` before the cursor.
abbrev pub passed : List ℕ → List ℕ → List ℕ
passed input left = take (length input - length left) input

-- A field without its `raw`.
abbrev pub Content : Type 0
Content = ℕ × List ℕ

abbrev pub tag_is_valid : ℕ → Bool
tag_is_valid tag = ltb 0 tag && leb tag 0xffffffff && ltb 0 (tag / 8)

-- The `switch` of `field` on the wire type, by what reads a group to its end.
unfoldable pub parse_content :
    (List ℕ → Result CodecError (Content × List ℕ))
    → ℕ
    → List ℕ
    → Result CodecError (Content × List ℕ)
parse_content group zero input = do (scalar, left) ← cursor_varint input; ok ((scalar, []), left)
parse_content group (suc zero) input = do (skipped, left) ← cursor_skip 8 input; ok ((0, []), left)
parse_content group (suc (suc zero)) input = do
  (size, at) ← cursor_varint input
  (skipped, left) ← cursor_skip size at
  ok ((0, skipped), left)
parse_content group (suc (suc (suc zero))) input = group input
parse_content group (suc (suc (suc (suc zero)))) input = ok ((0, []), input)
parse_content group (suc (suc (suc (suc (suc zero))))) input = do
  (skipped, left) ← cursor_skip 4 input
  ok ((0, []), left)
parse_content group (suc (suc (suc (suc (suc (suc wire)))))) input = err invalid_wire_type

-- The field of a tag and its content.
abbrev pub field_of : ℕ → Content → List ℕ → Field
field_of tag content raw = record {
  number = tag / 8;
  wire = tag % 8;
  scalar = content.0;
  bytes = content.1;
  raw = raw;
}

-- `field` and the loop of its `switch` over a group.
unfoldable mutual
  pub parse_field : ℕ → ℕ → List ℕ → Result CodecError (Field × List ℕ)
  parse_field zero depth input = err out_of_fuel
  parse_field (suc fuel) depth input =
      let parsed = cursor_varint input >>= λ (tag, at).
      (let body = parse_content (parse_group fuel (depth + 1) (tag / 8)) (tag % 8) at in
        if tag_is_valid tag then body else err invalid_tag)
      >>= λ (content, left). ok (field_of tag content (passed input left), left) in
      if ltb 100 depth then err nesting_limit else parsed

  pub parse_group : ℕ → ℕ → ℕ → List ℕ → Result CodecError (Content × List ℕ)
  parse_group zero depth number input = err out_of_fuel
  parse_group (suc fuel) depth number input = do
    (nested, left) ← parse_field fuel depth input
    let more = parse_group fuel depth number left
    if nested.wire == 4
        then (if nested.number == number then ok ((0, []), left) else err mismatched_group)
        else more

-- The loop of `fields`.
unfoldable pub fields_rounds : ℕ → List ℕ → Result CodecError (List Field)
fields_rounds zero [] = ok []
fields_rounds zero (b ∷ input) = err out_of_fuel
fields_rounds (suc rounds) [] = ok []
fields_rounds (suc rounds) (b ∷ input) = do
  (field, left) ← parse_field (2 * length (b ∷ input) + 1) 0 (b ∷ input)
  let more = fields_rounds rounds left
  if field.wire == 4 then err unexpected_end_group else (more >>= λ fields. ok (field ∷ fields))

unfoldable pub message_fields : List ℕ → Result CodecError (List Field)
message_fields input = fields_rounds (length input) input
