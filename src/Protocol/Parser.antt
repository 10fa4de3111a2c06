-- ===== src/Protocol/Parser.antt =====
-- parse_message of protocol/DnsParser.cpp.
pub mod Total
pub mod RoundTrip
use dns_pro.Base.{
  ℕ, ◌+◌, ◌/◌, ◌^◌, bit_and, Bool, ◌&&◌, ◌||◌, not, List, [], ltb, ◌==◌, length, Outcome, ok, ◌>>=◌,
  ◌>>◌, refuse_if,
}
use dns_pro.Protocol.Wire.{Bytes, start_at, read_u16}
use dns_pro.Protocol.Message.{
  Header, Question, ResourceRecord, Message, ParseError, ParseErrorCode, ParseLimits,
}
use dns_pro.Protocol.NameDecoder.{failure}
use dns_pro.Protocol.RecordParser.{or_end, parse_question, parse_resource_record, parse_section}

abbrev pub has_flag : ℕ → ℕ → Bool
has_flag flags mask = not (bit_and flags mask == 0)

unfoldable pub decode_flags : ℕ → ℕ → Header
decode_flags id flags = record {
  id = id;
  is_response = has_flag flags 0x8000;
  opcode = bit_and (flags / 2 ^ 11) 0x0f;
  authoritative_answer = has_flag flags 0x0400;
  truncated = has_flag flags 0x0200;
  recursion_desired = has_flag flags 0x0100;
  recursion_available = has_flag flags 0x0080;
  reserved_z = has_flag flags 0x0040;
  authenticated_data = has_flag flags 0x0020;
  checking_disabled = has_flag flags 0x0010;
  response_code = bit_and flags 0x000f;
}

-- The six words of the header.
pub record Counts : Type 0 where
  pub id : ℕ
  pub flags : ℕ
  pub question_count : ℕ
  pub answer_count : ℕ
  pub authority_count : ℕ
  pub additional_count : ℕ

unfoldable pub read_counts : Bytes → Outcome ParseError (Counts × ℕ)
read_counts packet = do
  (id, r1) ← or_end (read_u16 (start_at packet 0))
  (flags, r2) ← or_end (read_u16 r1)
  (question_count, r3) ← or_end (read_u16 r2)
  (answer_count, r4) ← or_end (read_u16 r3)
  (authority_count, r5) ← or_end (read_u16 r4)
  (additional_count, r6) ← or_end (read_u16 r5)
  ok (
    record {
      id = id;
      flags = flags;
      question_count = question_count;
      answer_count = answer_count;
      authority_count = authority_count;
      additional_count = additional_count;
    },
    r6.offset,
  )

unfoldable pub check_counts : ParseLimits → Counts → Outcome ParseError (Unit {0})
check_counts limits c = do
  refuse_if (ltb limits.maximum_questions c.question_count)
      (failure ParseErrorCode.too_many_questions 4)
  refuse_if
      (ltb limits.maximum_records_per_section c.answer_count
        || ltb limits.maximum_records_per_section c.authority_count
        || ltb limits.maximum_records_per_section c.additional_count)
      (failure ParseErrorCode.too_many_records 6)
  refuse_if
      (ltb limits.maximum_total_records (c.answer_count + c.authority_count + c.additional_count))
      (failure ParseErrorCode.too_many_records 6)

abbrev pub assemble :
    Bytes
    → Counts
    → List Question
    → List ResourceRecord
    → List ResourceRecord
    → List ResourceRecord
    → Message
assemble packet c questions answers authorities additionals = record {
  header = decode_flags c.id c.flags;
  questions = questions;
  answers = answers;
  authorities = authorities;
  additionals = additionals;
  wire_image = packet;
}

-- The four sections behind the header and the check for trailing data.
unfoldable pub parse_body : Bytes → ParseLimits → Counts → ℕ → Outcome ParseError Message
parse_body packet limits c offset = do
  (questions, o1) ← parse_section c.question_count (parse_question packet limits) [] offset
  (answers, o2) ← parse_section c.answer_count (parse_resource_record packet limits) [] o1
  (authorities, o3) ← parse_section c.authority_count (parse_resource_record packet limits) [] o2
  (additionals, o4) ← parse_section c.additional_count (parse_resource_record packet limits) [] o3
  refuse_if (limits.reject_trailing_data && not (o4 == length packet))
      (failure ParseErrorCode.trailing_data o4)
  ok (assemble packet c questions answers authorities additionals)

unfoldable pub parse_message : Bytes → ParseLimits → Outcome ParseError Message
parse_message packet limits = do
  refuse_if (ltb limits.maximum_packet_size (length packet))
      (failure ParseErrorCode.packet_too_large limits.maximum_packet_size)
  (counts, offset) ← read_counts packet
  check_counts limits counts
  parse_body packet limits counts offset
