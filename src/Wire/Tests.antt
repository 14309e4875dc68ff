-- ===== src/Wire/Tests.antt =====
-- Runs of the wire format, and its theorems at concrete inputs.
use rules_elide.Prelude.{
  ℕ, ◌+◌, ◌^◌, ◌≤◌, ◌<◌, ◌≡◌, ◌≢◌, refl, ◌⊎◌, String, List, [], ◌∷◌, ◌++◌, map, arith, some, none,
  ok, err, ◌>>=◌, length, if◌then◌else◌,
}
use rules_elide.Wire.Varint.{
  varint, read_varint, truncated_varint, truncated_response, compile_failed, wrong_count,
  out_of_fuel,
}
use rules_elide.Wire.Varint.Decode.{read_varint-varint, read_varint_bounds}
use rules_elide.Wire.Fields.{number, bytes, field, read_field, fields}
use rules_elide.Wire.Fields.Laws.{as_bytes, join_fields, fields-ne-fuel}
use rules_elide.Wire.Fields.Numbers.{join_written, fields-join_written}
use rules_elide.Wire.Request.{Host, request}
use rules_elide.Wire.Request.Laws.{contents_of, request-readable}
use rules_elide.Wire.Response.{check_response, read_response, check_responses}
use rules_elide.Wire.Response.Laws.{frame, join_frames, check_responses-frames}
use rules_elide.Wire.Response.Refusals.{
  check_responses-failing, check_responses-cut, check_responses-ne-fuel,
}
use rules_elide.Partial.Stream.{compile_request, read_size}
use rules_elide.Partial.Stream.Laws.{from_pipe, read_size-read_varint, compile_request-frame}
use text.Mathlib.Text.{◌==◌ as str_eq}

varint_300 : varint 300 ≡ 0xac ∷ 0x02 ∷ []
unfolding varint
varint_300 = refl

-- "\x00\x02\x08\x00" is two successes, with the default and with an explicit exit code.
explicit_success : check_responses (0 ∷ 2 ∷ 8 ∷ 0 ∷ []) 2 ≡ ok tt
unfolding check_responses read_response check_response read_varint fields read_field
explicit_success = refl

cancelled : check_responses (2 ∷ 0x20 ∷ 1 ∷ []) 1 ≡ err (compile_failed [])
unfolding check_responses read_response check_response read_varint fields read_field
cancelled = refl

lost_replies : check_responses [] 1 ≡ err (wrong_count 1 0)
unfolding check_responses read_response check_response read_varint fields read_field
lost_replies = refl

read_varint-varint_example : read_varint (7 ∷ varint 300) 1 ≡ ok (300, 1 + length (varint 300))
read_varint-varint_example =
    read_varint-varint 300 1 (7 ∷ varint 300) [] (omega arith) (unfold varint in refl)

padded : read_varint (0x80 ∷ 0x00 ∷ 7 ∷ []) 0 ≡ ok (0, 2)
unfolding read_varint
padded = refl

read_varint_bounds_example : (0 < 2 ^ 70) × (0 < 2) × (2 ≤ 3) × (2 ≤ 0 + 10)
read_varint_bounds_example = read_varint_bounds (0x80 ∷ 0x00 ∷ 7 ∷ []) 0 0 2 padded

fields-join_written_example :
    fields (join_written ((1, number 300) ∷ (2, bytes (63 ∷ [])) ∷ []))
    ≡ ok ((1, number 300) ∷ (2, bytes (63 ∷ [])) ∷ [])
fields-join_written_example =
    fields-join_written ((1, number 300) ∷ (2, bytes (63 ∷ [])) ∷ []) (omega arith)

fields-ne-fuel_example : fields (0x80 ∷ 8 ∷ []) ≢ err out_of_fuel
fields-ne-fuel_example = fields-ne-fuel (0x80 ∷ 8 ∷ [])

-- A host with one file; its digest function keeps the contents.
abbrev host : Host
host = record {
  encode = λ s. if str_eq s "a.kt" then 97 ∷ [] else 45 ∷ 45 ∷ [];
  sha256 = λ contents. 5 ∷ contents;
  read_bytes = λ path. if str_eq path "a.kt" then some (1 ∷ []) else none;
  read_paths = λ path. none;
}

abbrev inputs : List (String × List ℕ)
inputs = ("a.kt", 1 ∷ []) ∷ []

request-readable_example :
    (msg : List ℕ) × (request host ("--" ∷ []) ("a.kt" ∷ []) ≡ ok (varint (length msg) ++ msg))
    × (fields msg ≡ ok (map as_bytes (contents_of host ("--" ∷ []) inputs)))
request-readable_example =
    request-readable host ("--" ∷ []) inputs (refl, tt)
      (unfold join_fields field varint in omega arith)

success : check_response [] ≡ ok tt
unfolding check_response fields
success = refl

failed : check_response (8 ∷ 1 ∷ 0x12 ∷ 1 ∷ 63 ∷ []) ≡ err (compile_failed (63 ∷ []))
unfolding check_response read_varint fields read_field
failed = refl

check_responses-frames_example :
    check_responses (join_frames ([] ∷ [] ∷ [])) 3 ≡ err (wrong_count 3 2)
check_responses-frames_example =
    check_responses-frames ([] ∷ [] ∷ []) 3 ((omega arith, success), ((omega arith, success), tt))

check_responses-failing_example :
    check_responses (join_frames ([] ∷ []) ++ (frame (8 ∷ 1 ∷ 0x12 ∷ 1 ∷ 63 ∷ []) ++ (9 ∷ []))) 2
    ≡ err (compile_failed (63 ∷ []))
check_responses-failing_example =
    check_responses-failing ([] ∷ []) (8 ∷ 1 ∷ 0x12 ∷ 1 ∷ 63 ∷ []) (9 ∷ []) 2
      ((omega arith, success), tt) (omega arith) failed

check_responses-cut_example :
    (check_responses (join_frames ([] ∷ []) ++ (2 ∷ 8 ∷ [])) 2 ≡ err truncated_varint)
    ⊎ (check_responses (join_frames ([] ∷ []) ++ (2 ∷ 8 ∷ [])) 2 ≡ err truncated_response)
check_responses-cut_example =
    check_responses-cut ([] ∷ []) (8 ∷ 0 ∷ []) (2 ∷ 8 ∷ []) [] 0 2 ((omega arith, success), tt)
      (omega arith) (unfold frame varint in refl) (omega arith)

check_responses-ne-fuel_example : check_responses (3 ∷ 8 ∷ []) 1 ≢ err out_of_fuel
check_responses-ne-fuel_example = check_responses-ne-fuel (3 ∷ 8 ∷ []) 1

read_size-read_varint_example :
    read_size 10 0 [] 0 (2 ∷ 8 ∷ []) ≡ from_pipe (2 ∷ 8 ∷ []) (read_varint (2 ∷ 8 ∷ []) 0)
read_size-read_varint_example = read_size-read_varint (2 ∷ 8 ∷ [])

abbrev worker : List ℕ → List ℕ
worker message = 0 ∷ 77 ∷ []

compile_request-frame_example :
    compile_request host worker [] [] (record { sent = 4 ∷ []; output = [] })
    ≡ (check_response [] >>= λ _. ok (record { sent = 4 ∷ 0 ∷ []; output = 77 ∷ [] }))
compile_request-frame_example =
    compile_request-frame host worker [] [] (4 ∷ []) (0 ∷ []) [] (77 ∷ [])
      (unfold request varint in refl) (unfold frame varint in refl) (omega arith)
