-- ===== src/Protocol/RecordParser.antt =====
-- parse_question, parse_resource_record and parse_section of protocol/DnsParser.cpp. `offset` is
-- taken and returned, since the code passes it by reference and sets it only on success.
pub mod Total
pub mod RoundTrip
use dns_pro.Base.{
  ℕ, zero, suc, ◌+◌, ◌-◌, Bool, true, false, ◌&&◌, ◌||◌, not, List, [], ◌∷◌, ◌++◌, Option, none,
  some, ltb, ◌==◌, if◌then◌else◌, length, Outcome, ok, err, out_of_bounds, out_of_fuel, ◌>>=◌, ◌>>◌,
  refuse_if,
}
use dns_pro.Protocol.Wire.{Bytes, Reader, start_at, byte_at, read_u16, read_u32, read_bytes}
use dns_pro.Protocol.Message.{
  Question, ResourceRecord, ParseError, ParseErrorCode, ParseLimits, RecordType, type_value,
}
use dns_pro.Protocol.NameDecoder.{failure, parse_failure, decode_name}

-- `!reader.read(...)` reported at the offset of the reader, which a failed read does not move.
abbrev pub or_end {ℓ} : {A : Type ℓ} → Outcome Reader A → Outcome ParseError A
or_end (ok a) = ok a
or_end (err r) = parse_failure ParseErrorCode.unexpected_end r.offset
or_end out_of_bounds = out_of_bounds
or_end out_of_fuel = out_of_fuel

unfoldable pub parse_question : Bytes → ParseLimits → ℕ → Outcome ParseError (Question × ℕ)
parse_question packet limits offset = do
  decoded ← decode_name packet offset (length packet) limits
  (qtype, r1) ← or_end (read_u16 (start_at packet decoded.next_offset))
  (question_class, r2) ← or_end (read_u16 r1)
  ok (record { name = decoded.name; qtype = qtype; question_class = question_class }, r2.offset)

unfoldable pub validate_single_name : Bytes → ParseLimits → ℕ → ℕ → Outcome ParseError (Unit {0})
validate_single_name packet limits name_offset required_end = do
  decoded ← decode_name packet name_offset required_end limits
  refuse_if (not (decoded.next_offset == required_end))
      (failure ParseErrorCode.invalid_rdata decoded.next_offset)
  ok tt

-- The loop of both string checks: the cursor and the count at its end, or `none` for
-- `return false`.
unfoldable pub strings_loop : ℕ → Bytes → ℕ → ℕ → ℕ → Outcome ParseError (Option (ℕ × ℕ))
strings_loop zero packet rdata_end cursor count = out_of_fuel
strings_loop (suc fuel) packet rdata_end cursor count = elim (ltb cursor rdata_end) [
  | false ↦ ok (some (cursor, count))
  | true ↦ byte_at packet cursor >>= λ string_size.
      elim (ltb (rdata_end - (cursor + 1)) string_size) [
        | true ↦ ok none
        | false ↦ strings_loop fuel packet rdata_end (cursor + 1 + string_size) (count + 1)
      ]
]

unfoldable pub ends_well : ℕ → (ℕ → Bool) → Option (ℕ × ℕ) → Bool
ends_well rdata_end enough none = false
ends_well rdata_end enough (some (cursor, count)) = cursor == rdata_end && enough count

-- Each round moves the cursor, so a round for each byte and one more suffice.
unfoldable pub validate_strings :
    (ℕ → Bool) → Bytes → ResourceRecord → ℕ → Outcome ParseError (Unit {0})
validate_strings enough packet item rdata_end = do
  scanned ← strings_loop (rdata_end - item.rdata_offset + 1) packet rdata_end item.rdata_offset 0
  refuse_if (not (ends_well rdata_end enough scanned))
      (failure ParseErrorCode.invalid_rdata item.rdata_offset)

abbrev pub validate_character_strings :
    ℕ → Bytes → ResourceRecord → ℕ → Outcome ParseError (Unit {0})
validate_character_strings expected_count = validate_strings (λ count. count == expected_count)

abbrev pub validate_text_strings : Bytes → ResourceRecord → ℕ → Outcome ParseError (Unit {0})
validate_text_strings = validate_strings (λ count. not (count == 0))

unfoldable pub validate_size : ℕ → ℕ → ResourceRecord → Outcome ParseError (Unit {0})
validate_size expected rdata_length item =
    refuse_if (not (rdata_length == expected))
      (failure ParseErrorCode.invalid_rdata item.rdata_offset)

unfoldable pub validate_mx :
    Bytes → ParseLimits → ℕ → ResourceRecord → ℕ → Outcome ParseError (Unit {0})
validate_mx packet limits rdata_length item rdata_end = do
  refuse_if (ltb rdata_length 3) (failure ParseErrorCode.invalid_rdata item.rdata_offset)
  validate_single_name packet limits (item.rdata_offset + 2) rdata_end

unfoldable pub validate_soa :
    Bytes → ParseLimits → ResourceRecord → ℕ → Outcome ParseError (Unit {0})
validate_soa packet limits item rdata_end = do
  primary_name ← decode_name packet item.rdata_offset rdata_end limits
  mailbox_name ← decode_name packet primary_name.next_offset rdata_end limits
  refuse_if
      (ltb rdata_end mailbox_name.next_offset || not (rdata_end - mailbox_name.next_offset == 20))
      (failure ParseErrorCode.invalid_rdata mailbox_name.next_offset)

unfoldable pub validate_minfo :
    Bytes → ParseLimits → ResourceRecord → ℕ → Outcome ParseError (Unit {0})
validate_minfo packet limits item rdata_end = do
  responsible_mailbox ← decode_name packet item.rdata_offset rdata_end limits
  validate_single_name packet limits responsible_mailbox.next_offset rdata_end

abbrev is_type : RecordType → ℕ → Bool
is_type t value = value == type_value t

-- The switch over the record type. OPT and unknown types are left opaque.
unfoldable pub validate_rdata :
    Bytes → ParseLimits → ℕ → ResourceRecord → ℕ → Outcome ParseError (Unit {0})
validate_rdata packet limits rdata_length item rdata_end =
    if is_type RecordType.a item.rtype
    then validate_size 4 rdata_length item
    else if is_type RecordType.aaaa item.rtype
    then validate_size 16 rdata_length item
    else if is_type RecordType.ns item.rtype
        || is_type RecordType.cname item.rtype
        || is_type RecordType.ptr item.rtype
    then validate_single_name packet limits item.rdata_offset rdata_end
    else if is_type RecordType.mx item.rtype
    then validate_mx packet limits rdata_length item rdata_end
    else if is_type RecordType.soa item.rtype
    then validate_soa packet limits item rdata_end
    else if is_type RecordType.minfo item.rtype
    then validate_minfo packet limits item rdata_end
    else if is_type RecordType.hinfo item.rtype
    then validate_character_strings 2 packet item rdata_end
    else if is_type RecordType.txt item.rtype
    then validate_text_strings packet item rdata_end
    else ok tt

unfoldable pub parse_resource_record :
    Bytes → ParseLimits → ℕ → Outcome ParseError (ResourceRecord × ℕ)
parse_resource_record packet limits offset = do
  decoded ← decode_name packet offset (length packet) limits
  (rtype, r1) ← or_end (read_u16 (start_at packet decoded.next_offset))
  (record_class, r2) ← or_end (read_u16 r1)
  (ttl, r3) ← or_end (read_u32 r2)
  (rdata_length, r4) ← or_end (read_u16 r3)
  (rdata, r5) ← or_end (read_bytes r4 rdata_length)
  let item : ResourceRecord = record {
    name = decoded.name;
    rtype = rtype;
    record_class = record_class;
    ttl = ttl;
    rdata_offset = r4.offset;
    rdata = rdata;
  }
  validate_rdata packet limits rdata_length item r5.offset
  ok (item, r5.offset)

-- The loop over the items of a section, which appends each to `output`.
unfoldable pub parse_section {ℓ} :
    {Item : Type ℓ}
    → ℕ
    → (ℕ → Outcome ParseError (Item × ℕ))
    → List Item
    → ℕ
    → Outcome ParseError (List Item × ℕ)
parse_section zero parser output offset = ok (output, offset)
parse_section (suc count) parser output offset = do
  (item, offset') ← parser offset
  parse_section count parser (output ++ item ∷ []) offset'
