-- ===== src/Protocol/Writer/Flags.antt =====
-- The flags word: decode_flags of the parser reads back what encode_flags writes.
use dns_pro.Base.{
  ℕ, ◌+◌, ◌*◌, ◌/◌, ◌%◌, ◌^◌, ◌<◌, bit_and, bit_or, ◌≡◌, ◌∙◌, Bool, true, false, arith,
  if◌then◌else◌, ok,
}
use dns_pro.Base.Bits.{bit_and_low, bit_and_flag, bit_or_disjoint, zero-bit_or}
use native.Mathlib.Nat.{one-le-pow}
use dns_pro.Protocol.Message.{Header}
use dns_pro.Protocol.Parser.{has_flag, decode_flags}
use dns_pro.Protocol.Writer.{flag_if, flags_of, encode_flags}

abbrev bit : Bool → ℕ
bit b = if b then 1 else 0

flag_if-bit : (b : Bool) (mask : ℕ) → flag_if b mask ≡ bit b * mask
flag_if-bit true mask = omega arith
flag_if-bit false mask = omega arith

-- The word as a sum of its fields.
abbrev word_of : ℕ → ℕ → ℕ → ℕ → ℕ → ℕ → ℕ → ℕ → ℕ → ℕ → ℕ
word_of r op aa tc rd ra z ad cd rc =
    r * 0x8000
    + op * 2 ^ 11
    + aa * 0x400
    + tc * 0x200
    + rd * 0x100
    + ra * 0x80
    + z * 0x40
    + ad * 0x20
    + cd * 0x10
    + rc

or_chain :
    (r op aa tc rd ra z ad cd rc : ℕ)
    → r < 2
    → op < 16
    → aa < 2
    → tc < 2
    → rd < 2
    → ra < 2
    → z < 2
    → ad < 2
    → cd < 2
    → rc < 16
    → bit_or
        (bit_or
          (bit_or
            (bit_or
              (bit_or
                (bit_or
                  (bit_or (bit_or (bit_or (r * 0x8000) (op * 2 ^ 11)) (aa * 0x400)) (tc * 0x200))
                  (rd * 0x100))
                (ra * 0x80))
              (z * 0x40))
            (ad * 0x20))
          (cd * 0x10))
        rc
      ≡ word_of r op aa tc rd ra z ad cd rc
or_chain r op aa tc rd ra z ad cd rc hr ho ha ht hd hv hz hx hc he = rw (
  bit_or_disjoint 15 (r * 0x8000) (op * 2 ^ 11) (omega arith) (omega arith),
  bit_or_disjoint 11 (r * 0x8000 + op * 2 ^ 11) (aa * 0x400) (omega arith) (omega arith),
  bit_or_disjoint 10 (r * 0x8000 + op * 2 ^ 11 + aa * 0x400) (tc * 0x200) (omega arith)
      (omega arith),
  bit_or_disjoint 9 (r * 0x8000 + op * 2 ^ 11 + aa * 0x400 + tc * 0x200) (rd * 0x100) (omega arith)
      (omega arith),
  bit_or_disjoint 8 (r * 0x8000 + op * 2 ^ 11 + aa * 0x400 + tc * 0x200 + rd * 0x100) (ra * 0x80)
      (omega arith) (omega arith),
  bit_or_disjoint 7 (r * 0x8000 + op * 2 ^ 11 + aa * 0x400 + tc * 0x200 + rd * 0x100 + ra * 0x80)
      (z * 0x40) (omega arith) (omega arith),
  bit_or_disjoint 6
      (r * 0x8000 + op * 2 ^ 11 + aa * 0x400 + tc * 0x200 + rd * 0x100 + ra * 0x80 + z * 0x40)
      (ad * 0x20) (omega arith) (omega arith),
  bit_or_disjoint 5
      (r * 0x8000
        + op * 2 ^ 11
        + aa * 0x400
        + tc * 0x200
        + rd * 0x100
        + ra * 0x80
        + z * 0x40
        + ad * 0x20)
      (cd * 0x10) (omega arith) (omega arith),
  bit_or_disjoint 4
      (r * 0x8000
        + op * 2 ^ 11
        + aa * 0x400
        + tc * 0x200
        + rd * 0x100
        + ra * 0x80
        + z * 0x40
        + ad * 0x20
        + cd * 0x10)
      rc (omega arith) (omega arith),
)

bit-lt : (b : Bool) → bit b < 2
bit-lt true = omega arith
bit-lt false = omega arith

flags_of-word :
    (h : Header)
    → h.opcode < 16
    → h.response_code < 16
    → flags_of h
      ≡ word_of
          (bit h.is_response)
          h.opcode
          (bit h.authoritative_answer)
          (bit h.truncated)
          (bit h.recursion_desired)
          (bit h.recursion_available)
          (bit h.reserved_z)
          (bit h.authenticated_data)
          (bit h.checking_disabled)
          h.response_code
unfolding flags_of
flags_of-word h ho he =
    simp
      (
        zero-bit_or,
        flag_if-bit h.is_response 0x8000,
        flag_if-bit h.authoritative_answer 0x400,
        flag_if-bit h.truncated 0x200,
        flag_if-bit h.recursion_desired 0x100,
        flag_if-bit h.recursion_available 0x80,
        flag_if-bit h.reserved_z 0x40,
        flag_if-bit h.authenticated_data 0x20,
        flag_if-bit h.checking_disabled 0x10,
      )
      (or_chain (bit h.is_response) h.opcode (bit h.authoritative_answer) (bit h.truncated)
        (bit h.recursion_desired) (bit h.recursion_available) (bit h.reserved_z)
        (bit h.authenticated_data) (bit h.checking_disabled) h.response_code (bit-lt _) ho
        (bit-lt _) (bit-lt _) (bit-lt _) (bit-lt _) (bit-lt _) (bit-lt _) (bit-lt _) he)

has_flag-bit : (k flags : ℕ) (b : Bool) → flags / 2 ^ k % 2 ≡ bit b → has_flag flags (1 * 2 ^ k) ≡ b
has_flag-bit k flags true e = rw (bit_and_flag k flags, e) (ground (arith, one-le-pow k 2))
has_flag-bit k flags false e = rw (bit_and_flag k flags, e) (ground arith)

module _ (h : Header) (ho : h.opcode < 16) (he : h.response_code < 16) where
  word : ℕ
  word =
      word_of (bit h.is_response) h.opcode (bit h.authoritative_answer) (bit h.truncated)
        (bit h.recursion_desired) (bit h.recursion_available) (bit h.reserved_z)
        (bit h.authenticated_data) (bit h.checking_disabled) h.response_code

  bits :
      (bit h.is_response < 2)
      × (bit h.authoritative_answer < 2)
      × (bit h.truncated < 2)
      × (bit h.recursion_desired < 2)
      × (bit h.recursion_available < 2)
      × (bit h.reserved_z < 2)
      × (bit h.authenticated_data < 2)
      × (bit h.checking_disabled < 2)
  bits = (bit-lt _, bit-lt _, bit-lt _, bit-lt _, bit-lt _, bit-lt _, bit-lt _, bit-lt _)

  decode_flags-word : decode_flags h.id word ≡ h
  unfolding decode_flags word
  decode_flags-word = λ i. record {
    id = h.id;
    is_response = has_flag-bit 15 word h.is_response (omega (arith, bits)) i;
    opcode = opcode_field i;
    authoritative_answer = has_flag-bit 10 word h.authoritative_answer (omega (arith, bits)) i;
    truncated = has_flag-bit 9 word h.truncated (omega (arith, bits)) i;
    recursion_desired = has_flag-bit 8 word h.recursion_desired (omega (arith, bits)) i;
    recursion_available = has_flag-bit 7 word h.recursion_available (omega (arith, bits)) i;
    reserved_z = has_flag-bit 6 word h.reserved_z (omega (arith, bits)) i;
    authenticated_data = has_flag-bit 5 word h.authenticated_data (omega (arith, bits)) i;
    checking_disabled = has_flag-bit 4 word h.checking_disabled (omega (arith, bits)) i;
    response_code = code_field i;
  }
    where
      opcode_field : bit_and (word / 2 ^ 11) 0x0f ≡ h.opcode
      opcode_field = bit_and_low 4 (word / 2 ^ 11) ∙ omega (arith, bits)

      code_field : bit_and word 0x0f ≡ h.response_code
      code_field = bit_and_low 4 word ∙ omega (arith, bits)

  word-lt : word < 2 ^ 16
  unfolding word
  word-lt = omega (arith, bits)

-- Whenever `encode_flags` accepts a header, the word that it writes fits 16 bits, and the parser
-- decodes it back to every field of that header.
pub decode_flags-encode_flags :
    (h : Header) (flags : ℕ)
    → encode_flags h ≡ ok flags
    → (flags < 2 ^ 16) × (decode_flags h.id flags ≡ h)
unfolding encode_flags
decode_flags-encode_flags h flags e =
    let ho : h.opcode < 16 = ground arith in
    let he : h.response_code < 16 = ground arith in
    let is_word : flags ≡ word h ho he =
      (let x : flags ≡ flags_of h = ground arith in x ∙ unfold word in flags_of-word h ho he) in
    rw is_word (word-lt h ho he, decode_flags-word h ho he)
