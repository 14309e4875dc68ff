-- ===== src/Worker/Messages.antt =====
-- elide/private/ic_worker/WorkerProtocol.java: the writers, `read`, `WorkRequest` and `WorkResponse`.
-- A stream is the bytes that are still to be read, or those that are written. The UTF-8 codec of the
-- Java library is a parameter.
pub mod Varint
pub mod Forward
pub mod Sized
pub mod Arguments
pub mod Identity
pub mod Interop
pub mod Failure
pub mod Reported
use rules_elide.Prelude.{
  ℕ, zero, suc, ◌+◌, ◌-◌, ◌*◌, ◌/◌, ◌%◌, ◌^◌, bit_and, bit_or, Bool, true, false, ◌&&◌, not, List,
  [], ◌∷◌, ◌++◌, map, Option, none, some, Result, ok, err, ◌>>=◌, length, take, drop, ltb, leb,
  ◌==◌, if◌then◌else◌,
}
use rules_elide.Prelude.Text.{Text}
use rules_elide.Worker.Codec.{
  CodecError, Field, message_fields, invalid_length, truncated_length, message_too_long,
  truncated_message, malformed_text,
}
use rules_elide.Worker.Codec.Message.{raws}

-- `varint`: a `long` has ten groups of seven bits at most, and `value & ~127L` is zero where no bit
-- above the lowest seven is set.
unfoldable pub write_rounds : ℕ → ℕ → List ℕ
write_rounds zero value = []
write_rounds (suc rounds) value =
    let rest = write_rounds rounds (value / 128) in
    if ltb 0 (value / 128) then bit_or (bit_and value 127) 128 ∷ rest else value ∷ []

unfoldable pub write_varint : ℕ → List ℕ
unfolding write_rounds
write_varint value = write_rounds 10 value

-- `StandardCharsets.UTF_8`: `getBytes`, and `newDecoder().decode`, where none is its exception.
pub record Utf8 : Type 0 where
  pub encode : Text → List ℕ
  pub decode : List ℕ → Option Text

-- `MAX_MESSAGE`
abbrev pub max_message : ℕ
max_message = 64 * 1024 * 1024

-- The loop of `read` on the length, with the last byte that was read.
unfoldable pub length_loop : ℕ → ℕ → ℕ → List ℕ → Result CodecError (ℕ × List ℕ)
length_loop shift size value [] =
    if leb 128 value
    then (if ltb 28 shift then err invalid_length else err truncated_length)
    else ok (size, [])
length_loop shift size value (next ∷ input) =
    let more = length_loop (shift + 7) (bit_or size (bit_and next 127 * 2 ^ shift)) next input in
    if leb 128 value
    then (if ltb 28 shift then err invalid_length else more)
    else ok (size, next ∷ input)

-- `read`: none at the end of the stream.
unfoldable pub read_message : List ℕ → Result CodecError (Option (List ℕ) × List ℕ)
read_message [] = ok (none, [])
read_message (first ∷ input) = do
  (size, at) ← length_loop 7 (bit_and first 127) first input
  if ltb max_message size
      then err message_too_long
      else if ltb (length at) size
      then err truncated_message
      else ok (some (take size at), drop size at)

pub record Input : Type 0 where
  pub path : Text
  pub digest : List ℕ

pub record WorkRequest : Type 0 where
  pub fields : List Field
  pub arguments : List Text
  pub inputs : List Input
  pub request_id : ℕ

pub record WorkResponse : Type 0 where
  pub bytes : List ℕ
  pub exit_code : ℕ
  pub request_id : ℕ
  pub output : Text

-- `(int) scalar`, modulo 2 ^ 32.
abbrev pub to_int : ℕ → ℕ
to_int n = n % 2 ^ 32

-- `(long) n`, modulo 2 ^ 64, which keeps the sign of an `int`.
abbrev pub to_long : ℕ → ℕ
to_long n = if ltb n (2 ^ 31) then n else n + (2 ^ 64 - 2 ^ 32)

abbrev pub has_shape : Field → ℕ → ℕ → Bool
has_shape field number wire = field.number == number && field.wire == wire

-- The fields that are no argument.
unfoldable pub other_fields : List Field → List Field
other_fields [] = []
other_fields (field ∷ rest) =
    let others = other_fields rest in if has_shape field 1 2 then others else field ∷ others

module _ (utf8 : Utf8) where
  open utf8 use {encode, decode}

  unfoldable pub text : List ℕ → Result CodecError Text
  text bytes = elim (decode bytes) [ none ↦ err malformed_text | some t ↦ ok t ]

  unfoldable pub write_string : ℕ → Text → List ℕ
  write_string number value =
      write_varint (number * 8 + 2) ++ (write_varint (length (encode value)) ++ encode value)

  -- A round of the loop over the fields of an input, from the input so far.
  unfoldable pub input_entry : Input → Field → Result CodecError Input
  input_entry input entry = do
    named ←
        (let path = text entry.bytes >>= λ t. ok (record input { path = t }) in
          if has_shape entry 1 2 then path else ok input)
    ok (if has_shape entry 2 2 then record named { digest = entry.bytes } else named)

  unfoldable pub input_entries : Input → List Field → Result CodecError Input
  input_entries input [] = ok input
  input_entries input (entry ∷ entries) =
      input_entry input entry >>= λ next. input_entries next entries

  unfoldable pub read_input : List ℕ → Result CodecError Input
  read_input bytes = do
    entries ← message_fields bytes
    input_entries (record { path = []; digest = [] }) entries

  -- A round of the loop of the constructor of `WorkRequest`, from the request so far.
  unfoldable pub request_field : WorkRequest → Field → Result CodecError WorkRequest
  request_field request field = do
    spoken ←
        (let argument = text field.bytes >>= λ t.
        ok (record request { arguments = request.arguments ++ t ∷ [] }) in
          if has_shape field 1 2 then argument else ok request)
    counted ←
        ok (
          if has_shape field 3 0
          then record spoken { request_id = to_int field.scalar }
          else spoken)
    let entry =
        read_input field.bytes >>= λ i. ok (record counted { inputs = counted.inputs ++ i ∷ [] })
    if has_shape field 2 2 then entry else ok counted

  unfoldable pub request_fields : WorkRequest → List Field → Result CodecError WorkRequest
  request_fields request [] = ok request
  request_fields request (field ∷ rest) =
      request_field request field >>= λ next. request_fields next rest

  unfoldable pub parse_request : List ℕ → Result CodecError WorkRequest
  parse_request bytes = do
    fields ← message_fields bytes
    request_fields (record { fields = fields; arguments = []; inputs = []; request_id = 0 }) fields

  -- `parseDelimitedFrom`: the request, and the stream behind it.
  unfoldable pub parse_delimited_request : List ℕ → Result CodecError (Option WorkRequest × List ℕ)
  parse_delimited_request input = do
    (message, left) ← read_message input
    elim message [
      | none ↦ ok (none, left)
      | some bytes ↦ parse_request bytes >>= λ request. ok (some request, left)
    ]

  unfoldable pub write_arguments : List Text → List ℕ
  write_arguments [] = []
  write_arguments (arg ∷ args) = write_string 1 arg ++ write_arguments args

  -- `withArguments`: the new arguments come before the other fields.
  unfoldable pub with_arguments : List Text → WorkRequest → Result CodecError WorkRequest
  with_arguments args request =
      parse_request (write_arguments args ++ raws (other_fields request.fields))

  -- `create`
  unfoldable pub create_request : List Text → Result CodecError WorkRequest
  create_request args = parse_request [] >>= λ request. with_arguments args request

  -- A round of the loop of the constructor of `WorkResponse`, from the response so far.
  unfoldable pub response_field : WorkResponse → Field → Result CodecError WorkResponse
  response_field response field = do
    left ← ok (
        if has_shape field 1 0
        then record response { exit_code = to_int field.scalar }
        else response)
    spoken ←
        (let output = text field.bytes >>= λ t. ok (record left { output = t }) in
          if has_shape field 2 2 then output else ok left)
    ok (if has_shape field 3 0 then record spoken { request_id = to_int field.scalar } else spoken)

  unfoldable pub response_fields : WorkResponse → List Field → Result CodecError WorkResponse
  response_fields response [] = ok response
  response_fields response (field ∷ rest) =
      response_field response field >>= λ next. response_fields next rest

  unfoldable pub parse_response : List ℕ → Result CodecError WorkResponse
  parse_response bytes = do
    fields ← message_fields bytes
    response_fields (record { bytes = bytes; exit_code = 0; request_id = 0; output = [] }) fields

  unfoldable pub parse_delimited_response :
      List ℕ → Result CodecError (Option WorkResponse × List ℕ)
  parse_delimited_response input = do
    (message, left) ← read_message input
    elim message [
      | none ↦ ok (none, left)
      | some bytes ↦ parse_response bytes >>= λ response. ok (some response, left)
    ]

  -- `WorkResponse.error`
  unfoldable pub error_bytes : ℕ → Text → List ℕ
  error_bytes request_id message =
      write_varint 8
      ++ write_varint 1
      ++ write_string 2 message
      ++ write_varint 24
      ++ write_varint (to_long request_id)

  unfoldable pub error_response : ℕ → Text → Result CodecError WorkResponse
  error_response request_id message = parse_response (error_bytes request_id message)

-- `writeDelimitedTo`
unfoldable pub write_request : WorkRequest → List ℕ
write_request request = write_varint (length (raws request.fields)) ++ raws request.fields

unfoldable pub write_response : WorkResponse → List ℕ
write_response response = write_varint (length response.bytes) ++ response.bytes
