-- ===== src/Worker/Messages/Interop.antt =====
-- The two programs on one stream: a request that gen_workrequest.py writes, read by `WorkerProtocol`,
-- and a response that `WorkerProtocol` writes, read by gen_workrequest.py.
use rules_elide.Prelude.{
  ℕ, ◌+◌, ◌*◌, ◌^◌, ◌≤◌, ◌<◌, ◌≡◌, refl, ap, sym, List, [], ◌∷◌, ◌++◌, arith, map, All, String,
  append_assoc, append-nil, length, length-append, ok, some,
}
use rules_elide.Prelude.Text.{codes}
use rules_elide.Worker.Codec.{Field, message_fields}
use rules_elide.Worker.Codec.Message.{raws, IsWhole, message_fields-raws}
use rules_elide.Worker.Messages.{
  Utf8, Input, WorkRequest, max_message, text, read_input, input_entry, input_entries,
  request_field, request_fields, parse_request, parse_delimited_request,
}
use rules_elide.Worker.Messages.Varint.{read_message-frame}
use rules_elide.Worker.Messages.Sized.{sized, sized-IsWhole}
use rules_elide.Wire.Varint.{varint}
use rules_elide.Wire.Fields.{field}
use rules_elide.Wire.Fields.Laws.{join_fields}
use rules_elide.Wire.Request.{Host, request}
use rules_elide.Wire.Request.Laws.{
  Present, paths, contents_of, argument_field, input_field, input_fields, request_bytes,
}

abbrev pub sized_of : ℕ × List ℕ → Field
sized_of (n, payload) = sized n payload

raws-sized : (fs : List (ℕ × List ℕ)) → raws (map sized_of fs) ≡ join_fields fs
unfolding raws join_fields
raws-sized [] = refl
raws-sized ((n, payload) ∷ fs) = ap (λ t. field n payload ++ t) (raws-sized fs)

abbrev IsTag : ℕ × List ℕ → Type 0
IsTag (n, payload) = (1 ≤ n) × (n < 2 ^ 29)

length-field : (n : ℕ) (payload : List ℕ) → length payload ≤ length (field n payload)
unfolding field
length-field n payload = omega (
  arith,
  length-append (varint (n * 8 + 2)) (varint (length payload) ++ payload),
  length-append (varint (length payload)) payload,
)

sized-wholes :
    (fs : List (ℕ × List ℕ))
    → All IsTag fs
    → length (join_fields fs) ≤ max_message
    → All IsWhole (map sized_of fs)
unfolding join_fields
sized-wholes [] tags h = tt
sized-wholes ((n, payload) ∷ fs) tags h =
    let total = length-append (field n payload) (join_fields fs) in
    (
      sized-IsWhole n payload tags.0.0 tags.0.1 (omega (arith, h, total, length-field n payload)),
      sized-wholes fs tags.1 (omega (arith, h, total)),
    )

length-tail :
    (xs ys : List (ℕ × List ℕ)) → length (join_fields ys) ≤ length (join_fields (xs ++ ys))
unfolding join_fields
length-tail [] ys = omega arith
length-tail ((n, payload) ∷ xs) ys =
    omega (arith, length-append (field n payload) (join_fields (xs ++ ys)), length-tail xs ys)

-- A message of the Python writer, as the Java reader takes it apart.
message_fields-join_fields :
    (fs : List (ℕ × List ℕ))
    → All IsTag fs
    → length (join_fields fs) ≤ max_message
    → message_fields (join_fields fs) ≡ ok (map sized_of fs)
message_fields-join_fields fs tags h =
    rw (sym (raws-sized fs)) (message_fields-raws (map sized_of fs) (sized-wholes fs tags h))

module _ (utf8 : Utf8) (host : Host) where
  open host use {encode, sha256}

  -- The two UTF-8 codecs agree on these texts.
  abbrev pub Shared : List String → Type 0
  Shared = All (λ s. utf8.decode (encode s) ≡ some (codes s))

  abbrev pub input_of : String × List ℕ → Input
  input_of (path, contents) = record { path = codes path; digest = sha256 contents }

  read_input-entry :
      (path : String) (contents : List ℕ)
      → utf8.decode (encode path) ≡ some (codes path)
      → length (join_fields (input_fields host (path, contents))) ≤ max_message
      → read_input utf8 (join_fields (input_fields host (path, contents)))
        ≡ ok (input_of (path, contents))
  unfolding read_input input_entries input_entry text
  read_input-entry path contents e h =
      rw (message_fields-join_fields (input_fields host (path, contents)) (omega arith) h)
        (ground (arith, e))

  add_shared :
      (request : WorkRequest) (a : String)
      → utf8.decode (encode a) ≡ some (codes a)
      → request_field utf8 request (sized 1 (encode a))
        ≡ ok (record request { arguments = request.arguments ++ codes a ∷ [] })
  unfolding request_field text
  add_shared request a e = ground (arith, e)

  add_input :
      (request : WorkRequest) (entry : List ℕ) (i : Input)
      → read_input utf8 entry ≡ ok i
      → request_field utf8 request (sized 2 entry)
        ≡ ok (record request { inputs = request.inputs ++ i ∷ [] })
  unfolding request_field
  add_input request entry i e = ground (arith, e)

  request_fields-Shared :
      (request : WorkRequest) (args : List String) (more : List (ℕ × List ℕ))
      → Shared args
      → request_fields utf8 request (map sized_of (map (argument_field host) args ++ more))
        ≡ request_fields utf8
            (record request { arguments = request.arguments ++ map codes args })
            (map sized_of more)
  unfolding request_fields
  request_fields-Shared request [] more s = rw append-nil
  request_fields-Shared request (a ∷ args) more s = rw (
    add_shared request a s.0,
    request_fields-Shared (record request { arguments = request.arguments ++ codes a ∷ [] }) args
        more s.1,
    append_assoc,
  )

  request_fields-inputs :
      (request : WorkRequest) (inputs : List (String × List ℕ))
      → Shared (paths host inputs)
      → length (join_fields (map (input_field host) inputs)) ≤ max_message
      → request_fields utf8 request (map sized_of (map (input_field host) inputs))
        ≡ ok (record request { inputs = request.inputs ++ map input_of inputs })
  unfolding request_fields join_fields
  request_fields-inputs request [] s h = rw append-nil
  request_fields-inputs request ((path, contents) ∷ inputs) s h =
      let entry = join_fields (input_fields host (path, contents)) in
      let total = length-append (field 2 entry) (join_fields (map (input_field host) inputs)) in
      rw (
        add_input request entry (input_of (path, contents))
            (read_input-entry path contents s.0 (omega (arith, h, total, length-field 2 entry))),
        request_fields-inputs
            (record request { inputs = request.inputs ++ input_of (path, contents) ∷ [] }) inputs
            s.1 (omega (arith, h, total)),
        append_assoc,
      )

  contents-tags :
      (args : List String) (inputs : List (String × List ℕ))
      → All IsTag (contents_of host args inputs)
  contents-tags [] [] = tt
  contents-tags [] (i ∷ inputs) = ((omega arith, omega arith), contents-tags [] inputs)
  contents-tags (a ∷ args) inputs = ((omega arith, omega arith), contents-tags args inputs)

  -- What the Java reader makes of the request.
  abbrev pub understood : List String → List (String × List ℕ) → WorkRequest
  understood args inputs = record {
    fields = map sized_of (contents_of host args inputs);
    arguments = map codes args;
    inputs = map input_of inputs;
    request_id = 0;
  }

  -- Where every input is a file, Java decodes the texts that Python encoded and the message is of
  -- 64 MiB at most, the bytes of gen_workrequest.py are a request of the same arguments and of an
  -- input for each file, with its path and digest, and the reader stops behind them.
  pub parse_delimited_request-request :
      (args : List String) (inputs : List (String × List ℕ)) (rest : List ℕ)
      → Present host inputs
      → Shared args
      → Shared (paths host inputs)
      → length (join_fields (contents_of host args inputs)) ≤ max_message
      → (written : List ℕ) × (request host args (paths host inputs) ≡ ok written)
        × (parse_delimited_request utf8 (written ++ rest)
            ≡ ok (some (understood args inputs), rest))
  unfolding parse_delimited_request parse_request
  parse_delimited_request-request args inputs rest present s p small =
      let message = join_fields (contents_of host args inputs) in
      let read =
        message_fields-join_fields (contents_of host args inputs) (contents-tags args inputs)
          small in
      (
        varint (length message) ++ message,
        request_bytes host args inputs present,
        rw
            (
              append_assoc,
              read_message-frame message rest small,
              read,
              request_fields-Shared
                  (record {
                    fields = map sized_of (contents_of host args inputs);
                    arguments = [];
                    inputs = [];
                    request_id = 0;
                  })
                  args (map (input_field host) inputs) s,
            )
            (rw (
              request_fields-inputs
                (record {
                  fields = map sized_of (contents_of host args inputs);
                  arguments = map codes args;
                  inputs = [];
                  request_id = 0;
                })
                inputs p
                (omega (
                  arith,
                  small,
                  length-tail (map (argument_field host) args) (map (input_field host) inputs),
                )))),
      )
