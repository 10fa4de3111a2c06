-- ===== src/Protocol/NameDecoder.antt =====
-- decode_name of protocol/DnsParser.cpp. A round of the `while (true)` loop is `decode_round`; the
-- loop takes fuel, which `NameDecoder/Total` is about.
pub mod Total
pub mod RoundTrip
use dns_pro.Base.{
  ℕ, zero, suc, ◌+◌, ◌-◌, ◌*◌, ◌^◌, bit_and, bit_or, Bool, true, false, ◌&&◌, ◌||◌, not, List, [],
  ◌∷◌, ◌++◌, ltb, leb, ◌==◌, if◌then◌else◌, length, Outcome, ok, err, out_of_bounds, out_of_fuel,
  ◌>>=◌, ◌>>◌, refuse_if,
}
use dns_pro.Protocol.Wire.{Bytes, byte_at, slice}
use dns_pro.Protocol.DomainName.{
  DomainName, DomainNameError, DomainNameErrorCode, max_label_size, max_domain_wire_size,
  from_labels,
}
use dns_pro.Protocol.Message.{ParseError, ParseErrorCode, ParseLimits, dns_header_size}

pub record DecodedName : Type 0 where
  pub name : DomainName
  pub next_offset : ℕ

abbrev pub failure : ParseErrorCode → ℕ → ParseError
failure code offset = record { code = code; offset = offset }

abbrev pub parse_failure {ℓ} : {A : Type ℓ} → ParseErrorCode → ℕ → Outcome ParseError A
parse_failure code offset = err (failure code offset)

-- The variables of the loop.
pub record Scan : Type 0 where
  pub labels : List Bytes
  pub visited_pointers : List ℕ
  pub position : ℕ
  pub next_offset : ℕ
  pub expanded_wire_size : ℕ
  pub followed_pointer : Bool

abbrev pub first_scan : ℕ → Scan
first_scan start = record {
  labels = [];
  visited_pointers = [];
  position = start;
  next_offset = start;
  expanded_wire_size = 1;
  followed_pointer = false;
}

-- `break`, or the next round.
pub data Round : Type 0 where
  breaks : Scan → Round
  continues : Scan → Round

unfoldable pub contains : List ℕ → ℕ → Bool
contains [] pointer = false
contains (visited ∷ rest) pointer = visited == pointer || contains rest pointer

-- A compression pointer that has been read.
unfoldable pub follow_pointer : Bytes → ParseLimits → ℕ → Scan → Outcome ParseError Round
follow_pointer packet limits pointer s = do
  refuse_if (leb (length packet) pointer)
      (failure ParseErrorCode.compression_pointer_out_of_bounds s.position)
  refuse_if (ltb pointer dns_header_size)
      (failure ParseErrorCode.compression_pointer_into_header s.position)
  refuse_if (limits.require_backward_pointers && leb s.position pointer)
      (failure ParseErrorCode.forward_compression_pointer s.position)
  refuse_if (contains s.visited_pointers pointer)
      (failure ParseErrorCode.compression_pointer_loop s.position)
  refuse_if (leb limits.maximum_compression_pointers (length s.visited_pointers))
      (failure ParseErrorCode.too_many_compression_pointers s.position)
  ok (
      continues (record s {
        visited_pointers = s.visited_pointers ++ pointer ∷ [];
        next_offset = if s.followed_pointer then s.next_offset else s.position + 2;
        followed_pointer = true;
        position = pointer;
      }))

unfoldable pub pointer_round : Bytes → ℕ → ParseLimits → ℕ → Scan → Outcome ParseError Round
pointer_round packet encoded_end limits label_byte s = do
  refuse_if
      (leb (length packet) (s.position + 1)
        || not s.followed_pointer && leb encoded_end (s.position + 1))
      (failure ParseErrorCode.truncated_compression_pointer s.position)
  low ← byte_at packet (s.position + 1)
  follow_pointer packet limits (bit_or (bit_and label_byte 0x3f * 2 ^ 8) low) s

unfoldable pub label_round : Bytes → ℕ → ℕ → Scan → Outcome ParseError Round
label_round packet encoded_end label_size s = do
  refuse_if (ltb max_label_size label_size) (failure ParseErrorCode.label_too_long s.position)
  let label_begin = s.position + 1
  refuse_if
      (ltb (length packet) label_begin
        || ltb (length packet - label_begin) label_size
        || not s.followed_pointer
          && (ltb encoded_end label_begin || ltb (encoded_end - label_begin) label_size))
      (failure ParseErrorCode.unexpected_end s.position)
  refuse_if (ltb (max_domain_wire_size - (label_size + 1)) s.expanded_wire_size)
      (failure ParseErrorCode.name_too_long s.position)
  label ← slice packet label_begin label_size
  ok (
      continues (record s {
        labels = s.labels ++ label ∷ [];
        expanded_wire_size = s.expanded_wire_size + (label_size + 1);
        position = label_begin + label_size;
        next_offset = if s.followed_pointer then s.next_offset else label_begin + label_size;
      }))

-- What the byte at the position asks for: the end, a pointer or a label.
unfoldable pub dispatch_byte : Bytes → ℕ → ParseLimits → ℕ → Scan → Outcome ParseError Round
dispatch_byte packet encoded_end limits label_byte s =
    if label_byte == 0
    then ok (
        breaks
          (record s { next_offset = if s.followed_pointer then s.next_offset else s.position + 1 }))
    else if bit_and label_byte 0xc0 == 0xc0
    then pointer_round packet encoded_end limits label_byte s
    else if not (bit_and label_byte 0xc0 == 0)
    then parse_failure ParseErrorCode.invalid_label_type s.position
    else label_round packet encoded_end label_byte s

unfoldable pub decode_round : Bytes → ℕ → ParseLimits → Scan → Outcome ParseError Round
decode_round packet encoded_end limits s = do
  refuse_if (leb (length packet) s.position) (failure ParseErrorCode.unexpected_end s.position)
  refuse_if (not s.followed_pointer && leb encoded_end s.position)
      (failure ParseErrorCode.unexpected_end s.position)
  label_byte ← byte_at packet s.position
  dispatch_byte packet encoded_end limits label_byte s

unfoldable pub decode_loop : ℕ → Bytes → ℕ → ParseLimits → Scan → Outcome ParseError Scan
decode_loop zero packet encoded_end limits s = out_of_fuel
decode_loop (suc fuel) packet encoded_end limits s =
    decode_round packet encoded_end limits s >>= λ round. elim round [
      | breaks s' ↦ ok s'
      | continues s' ↦ decode_loop fuel packet encoded_end limits s'
    ]

-- A label adds at least two to the expanded size, which stays within 255, and a pointer adds one to
-- the visited pointers.
abbrev pub decode_fuel : ParseLimits → ℕ
decode_fuel limits = max_domain_wire_size + limits.maximum_compression_pointers + 1

abbrev pub name_error : DomainNameErrorCode → ParseErrorCode
name_error DomainNameErrorCode.empty_label = ParseErrorCode.empty_label
name_error DomainNameErrorCode.invalid_escape = ParseErrorCode.invalid_label_type
name_error DomainNameErrorCode.label_too_long = ParseErrorCode.label_too_long
name_error DomainNameErrorCode.name_too_long = ParseErrorCode.name_too_long

-- The error of `from_labels`, reported at the start of the encoded name.
abbrev pub map_name_error {ℓ} : {A : Type ℓ} → ℕ → Outcome DomainNameError A → Outcome ParseError A
map_name_error start (ok name) = ok name
map_name_error start (err e) = parse_failure (name_error e.code) start
map_name_error start out_of_bounds = out_of_bounds
map_name_error start out_of_fuel = out_of_fuel

unfoldable pub decode_name : Bytes → ℕ → ℕ → ParseLimits → Outcome ParseError DecodedName
decode_name packet start encoded_end limits = do
  s ← decode_loop (decode_fuel limits) packet encoded_end limits (first_scan start)
  name ← map_name_error start (from_labels s.labels)
  ok (record { name = name; next_offset = s.next_offset })
