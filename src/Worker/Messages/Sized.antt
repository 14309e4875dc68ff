-- ===== src/Worker/Messages/Sized.antt =====
-- The fields that the two codecs write, as `WorkerProtocol.field` reads them.
use rules_elide.Prelude.{
  ℕ, zero, suc, ◌==◌, ◌+◌, ◌*◌, ◌/◌, ◌%◌, ◌^◌, ◌≤◌, ◌<◌, ◌≡◌, refl, ap, subst, false, List, [],
  ◌++◌, arith, append_assoc, length, length-append, Result, ok,
}
use rules_elide.Worker.Codec.{CodecError, Field, Content, parse_content, parse_field, field_of}
use rules_elide.Worker.Codec.Local.{cursor_skip-passes}
use rules_elide.Worker.Codec.Nested.{parse_field-reads}
use rules_elide.Worker.Codec.Message.{IsWhole}
use rules_elide.Worker.Messages.Varint.{cursor_varint-varint}
use rules_elide.Wire.Varint.{varint}
use rules_elide.Wire.Varint.Encode.{varint-groups, length-groups}
use rules_elide.Wire.Fields.{field}

-- A length-delimited field, and a field of a number.
abbrev pub sized : ℕ → List ℕ → Field
sized number payload = record {
  number = number;
  wire = 2;
  scalar = 0;
  bytes = payload;
  raw = field number payload;
}

abbrev pub scalar_raw : ℕ → ℕ → List ℕ
scalar_raw number value = varint (number * 8) ++ varint value

abbrev pub counted : ℕ → ℕ → Field
counted number value = record {
  number = number;
  wire = 0;
  scalar = value;
  bytes = [];
  raw = scalar_raw number value;
}

varint-some_byte : (n : ℕ) → n < 2 ^ 64 → 1 ≤ length (varint n)
varint-some_byte n h =
    omega (arith, ap length (varint-groups 9 n (omega (arith, h))), length-groups 9 n)

read_sized :
    (group : List ℕ → Result CodecError (Content × List ℕ)) (wire : ℕ) (payload t : List ℕ)
    → length payload < 2 ^ 63
    → wire ≡ 2
    → parse_content group wire (varint (length payload) ++ (payload ++ t)) ≡ ok ((0, payload), t)
unfolding parse_content
read_sized group wire payload t h e = rw (
  e,
  cursor_varint-varint (length payload) (payload ++ t) (omega (arith, h)),
  cursor_skip-passes (length payload) payload t refl h,
)

read_counted :
    (group : List ℕ → Result CodecError (Content × List ℕ)) (wire value : ℕ) (t : List ℕ)
    → value < 2 ^ 64
    → wire ≡ 0
    → parse_content group wire (varint value ++ t) ≡ ok ((value, []), t)
unfolding parse_content
read_counted group wire value t h e = rw (e, cursor_varint-varint value t h)

module _ (tag : ℕ) (body : List ℕ) (c : Content) where
  read_whole :
      (g : ℕ) (t : List ℕ)
      → 8 ≤ tag
      → tag < 2 ^ 32
      → ((group : List ℕ → Result CodecError (Content × List ℕ))
          → parse_content group (tag % 8) (body ++ t) ≡ ok (c, t))
      → 2 * length (varint tag ++ body) ≤ g
      → parse_field g 0 ((varint tag ++ body) ++ t) ≡ ok (field_of tag c (varint tag ++ body), t)
  read_whole zero t low high reads h = absurd (
      omega (arith, h, length-append (varint tag) body, varint-some_byte tag (omega (arith, high))))
  read_whole (suc g) t low high reads h =
      parse_field-reads g 0 tag _ (body ++ t) (varint tag ++ body) t c (omega arith)
        (rw append_assoc (cursor_varint-varint tag (body ++ t) (omega (arith, high))))
        (ground (arith, low, high)) (reads _) refl

-- A field of the tag that is written before its body.
field_of-IsWhole :
    (tag : ℕ) (body : List ℕ) (c : Content)
    → 8 ≤ tag
    → tag < 2 ^ 32
    → (tag % 8 == 4) ≡ false
    → ((group : List ℕ → Result CodecError (Content × List ℕ)) (t : List ℕ)
        → parse_content group (tag % 8) (body ++ t) ≡ ok (c, t))
    → IsWhole (field_of tag c (varint tag ++ body))
field_of-IsWhole tag body c low high opens reads = record {
  some_byte =
      omega (arith, length-append (varint tag) body, varint-some_byte tag (omega (arith, high)));
  opens = opens;
  reads = λ g t h. read_whole tag body c g t low high (λ group. reads group t) h;
}

field_number : (number wire : ℕ) → wire < 8 → (number * 8 + wire) / 8 ≡ number
field_number number wire h = omega (arith, h)

field_wire : (number wire : ℕ) → wire < 8 → (number * 8 + wire) % 8 ≡ wire
field_wire number wire h = omega (arith, h)

pub sized-IsWhole :
    (number : ℕ) (payload : List ℕ)
    → 1 ≤ number
    → number < 2 ^ 29
    → length payload < 2 ^ 63
    → IsWhole (sized number payload)
unfolding field
sized-IsWhole number payload low high h =
    let n = field_number number 2 (omega arith) in
    let w = field_wire number 2 (omega arith) in
    let same : field_of (number * 8 + 2) (0, payload) (field number payload)
        ≡ sized number payload =
      rw (n, w) in
    subst IsWhole same (
      field_of-IsWhole (number * 8 + 2) (varint (length payload) ++ payload) (0, payload)
        (omega (arith, low)) (omega (arith, high)) (rw w)
        (λ group t. rw append_assoc (read_sized group _ payload t h w)))

pub counted-IsWhole :
    (number value : ℕ)
    → 1 ≤ number
    → number < 2 ^ 29
    → value < 2 ^ 64
    → IsWhole (counted number value)
counted-IsWhole number value low high h =
    let n : number * 8 / 8 ≡ number = omega arith in
    let w : number * 8 % 8 ≡ 0 = omega arith in
    let same : field_of (number * 8) (value, []) (scalar_raw number value) ≡ counted number value =
      rw (n, w) in
    subst IsWhole same (
      field_of-IsWhole (number * 8) (varint value) (value, []) (omega (arith, low))
        (omega (arith, high)) (rw w) (λ group t. read_counted group _ value t h w))
