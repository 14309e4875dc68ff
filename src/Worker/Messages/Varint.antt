-- ===== src/Worker/Messages/Varint.antt =====
-- The numbers of the two codecs: `WorkerProtocol` writes and reads them as gen_workrequest.py does.
use rules_elide.Prelude.{
  ℕ, zero, suc, ◌+◌, ◌*◌, ◌/◌, ◌%◌, ◌^◌, ◌≤◌, ◌<◌, ◌≡◌, ◌∙◌, ap, sym, List, [], ◌∷◌, ◌++◌, arith,
  bit_and, bit_or, length, length-append, if◌then◌else◌, Bool-cases, Result, ok, some, ltb, inl,
  inr, take, drop, take-append, drop-append,
}
use rules_elide.Prelude.Bits.{low_seven, set_top_bit}
use rules_elide.Worker.Codec.{CodecError, varint_rounds, cursor_varint}
use rules_elide.Worker.Messages.{write_rounds, write_varint, length_loop, read_message, max_message}
use rules_elide.Wire.Varint.{varint}
use rules_elide.Wire.Varint.Encode.{groups, varint-groups, length-groups}
use rules_elide.Wire.Varint.Decode.{add_group, split_group}

marked : (n : ℕ) → bit_or (bit_and n 127) 128 ≡ n % 128 + 128
marked n = rw low_seven (set_top_bit (n % 128) (omega arith))

write_rounds-groups : (k n : ℕ) → n < 128 ^ suc k → write_rounds (suc k) n ≡ groups k n
unfolding write_rounds groups
write_rounds-groups zero n h = ground arith
write_rounds-groups (suc k) n h =
    ground (arith, marked n, write_rounds-groups k (n / 128) (omega arith))

-- The Java writer and the Python writer agree on every `long`.
pub write_varint-varint : (n : ℕ) → n < 2 ^ 64 → write_varint n ≡ varint n
unfolding write_varint
write_varint-varint n h =
    write_rounds-groups 9 n (omega arith) ∙ sym (varint-groups 9 n (omega arith))

-- One round of the reader, in plain arithmetic.
varint_rounds-step :
    (rounds shift value b : ℕ) (bytes : List ℕ)
    → value < 2 ^ shift
    → (shift ≡ 63 → b ≤ 1)
    → varint_rounds (suc rounds) shift value (b ∷ bytes) ≡ (
        let value' = value + b % 128 * 2 ^ shift in
        if ltb b 128 then ok (value', bytes) else varint_rounds rounds (shift + 7) value' bytes)
unfolding varint_rounds
varint_rounds-step rounds shift value b bytes hv top = ground (arith, add_group value b shift hv)

top_group : (n shift : ℕ) → n * 2 ^ shift < 2 ^ 64 → shift ≡ 63 → n ≤ 1
top_group n shift h e = omega (arith, h, ap (λ (s : ℕ). n * 2 ^ s) e)

varint_rounds-groups :
    (k rounds shift value n : ℕ) (rest : List ℕ)
    → k < rounds
    → n < 128 ^ suc k
    → value < 2 ^ shift
    → n * 2 ^ shift < 2 ^ 64
    → varint_rounds rounds shift value (groups k n ++ rest) ≡ ok (value + n * 2 ^ shift, rest)
unfolding groups
varint_rounds-groups k zero shift value n rest hk hn hv top = absurd (omega arith)
varint_rounds-groups zero (suc rounds) shift value n rest hk hn hv top =
    rw (varint_rounds-step rounds shift value n rest hv (top_group n shift top)) (ground arith)
varint_rounds-groups (suc k) (suc rounds) shift value n rest hk hn hv top =
    elim (Bool-cases (ltb n 128)) [
      | inl small ↦
          ground
            (arith, small, varint_rounds-step rounds shift value n rest hv (top_group n shift top))
      | inr big ↦ ground (
        arith,
        big,
        top_group n shift top,
        varint_rounds-step rounds shift value (n % 128 + 128) (groups k (n / 128) ++ rest) hv
            (λ e. ground (arith, big, top_group n shift top e)),
        split_group n shift,
        add_group value n shift hv,
        varint_rounds-groups k rounds (shift + 7) (value + n % 128 * 2 ^ shift) (n / 128) rest
            (omega arith) (omega arith),
      )
    ]

-- The cursor reads back what either of them wrote, whatever follows.
pub cursor_varint-varint :
    (n : ℕ) (rest : List ℕ) → n < 2 ^ 64 → cursor_varint (varint n ++ rest) ≡ ok (n, rest)
unfolding cursor_varint
cursor_varint-varint n rest h = rw (varint-groups 9 n (omega (arith, h))) (
    varint_rounds-groups 9 10 0 0 n rest (omega arith) (omega (arith, h)) (omega arith)
      (omega (arith, h))
    ∙ ground arith)

-- The loop on the length, once it takes another byte.
enter : ℕ → ℕ → List ℕ → Result CodecError (ℕ × List ℕ)
enter shift size [] = ok (size, [])
enter shift size (b ∷ input) =
    length_loop (shift + 7) (bit_or size (bit_and b 127 * 2 ^ shift)) b input

length_loop-done :
    (shift size value : ℕ) (input : List ℕ)
    → value < 128
    → length_loop shift size value input ≡ ok (size, input)
unfolding length_loop
length_loop-done shift size value [] h = ground (arith, h)
length_loop-done shift size value (b ∷ input) h = ground (arith, h)

length_loop-more :
    (shift size value : ℕ) (input : List ℕ)
    → 128 ≤ value
    → shift ≤ 28
    → 1 ≤ length input
    → length_loop shift size value input ≡ enter shift size input
unfolding length_loop enter
length_loop-more shift size value [] h s some_byte = absurd (omega (arith, some_byte))
length_loop-more shift size value (b ∷ input) h s some_byte = ground (arith, h, s)

enter-last :
    (shift size n : ℕ) (rest : List ℕ)
    → n < 128
    → size < 2 ^ shift
    → enter shift size (n ∷ rest) ≡ ok (size + n * 2 ^ shift, rest)
unfolding enter
enter-last shift size n rest h hv = ground (
  arith,
  add_group size n shift hv,
  length_loop-done (shift + 7) (bit_or size (bit_and n 127 * 2 ^ shift)) n rest h,
)

enter-groups :
    (k shift size n : ℕ) (rest : List ℕ)
    → shift + 7 * k ≤ 28
    → n < 128 ^ suc k
    → size < 2 ^ shift
    → enter shift size (groups k n ++ rest) ≡ ok (size + n * 2 ^ shift, rest)
unfolding groups enter
enter-groups zero shift size n rest hk hn hv = enter-last shift size n rest (omega (arith, hn)) hv
enter-groups (suc k) shift size n rest hk hn hv = elim (Bool-cases (ltb n 128)) [
  | inl small ↦ ground (arith, small, enter-last shift size n rest)
  | inr big ↦
      let left = groups k (n / 128) ++ rest in
      ground (
        arith,
        big,
        split_group n shift,
        add_group size (n % 128 + 128) shift hv,
        length_loop-more (shift + 7) (bit_or size (bit_and (n % 128 + 128) 127 * 2 ^ shift))
            (n % 128 + 128) left (omega arith) (omega (arith, hk))
            (omega (arith, length-groups k (n / 128), length-append (groups k (n / 128)) rest)),
        enter-groups k (shift + 7) (size + n % 128 * 2 ^ shift) (n / 128) rest (omega (arith, hk))
            (omega (arith, hn)),
      )
]

first_byte : (b : ℕ) → bit_or 0 (bit_and b 127 * 2 ^ 0) ≡ bit_and b 127
first_byte b = ground (arith, add_group 0 b 0 (omega arith), low_seven b)

read_message-enter :
    (size : ℕ) (input at : List ℕ)
    → enter 0 0 input ≡ ok (size, at)
    → 1 ≤ length input
    → size ≤ max_message
    → size ≤ length at
    → read_message input ≡ ok (some (take size at), drop size at)
unfolding read_message enter
read_message-enter size [] at e some_byte small fits = absurd (omega (arith, some_byte))
read_message-enter size (b ∷ input) at e some_byte small fits =
    ground (arith, ap (λ v. length_loop 7 v b input) (first_byte b), e, small, fits)

-- `read` takes a message behind its length, up to 64 MiB, and leaves what follows it.
pub read_message-frame :
    (message rest : List ℕ)
    → length message ≤ max_message
    → read_message (varint (length message) ++ (message ++ rest)) ≡ ok (some message, rest)
read_message-frame message rest h =
    let n = length message in
    let body = message ++ rest in
    let open_groups : varint n ≡ groups 4 n = varint-groups 4 n (omega (arith, h)) in
    read_message-enter n (varint n ++ body) body
      (rw open_groups
        (enter-groups 4 0 0 n body (omega arith) (omega (arith, h)) (omega arith) ∙ ground arith))
      (omega (arith, length-append (varint n) body, ap length open_groups, length-groups 4 n)) h
      (omega (arith, length-append message rest))
    ∙ rw (take-append message rest, drop-append message rest)
