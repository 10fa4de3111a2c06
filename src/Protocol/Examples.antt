-- ===== src/Protocol/Examples.antt =====
-- Runs of the protocol code and of its theorems on one packet: the query for the address of A.bc.
use dns_pro.Base.{
  ◌<◌, ◌^◌, ◌≡◌, refl, ◌↔◌, true, false, some, List, [], ◌∷◌, ◌++◌, arith, length, leb,
  if◌then◌else◌, drop, ok, err, Returns,
}
use dns_pro.Protocol.Wire
use dns_pro.Protocol.Wire.{Bytes, IsByte}
use dns_pro.Protocol.DomainName.{
  from_labels, from_text, to_string, same_name, is_subdomain_of, canonical_suffix_key, key_of,
  check_labels,
}
use dns_pro.Protocol.DomainName.Valid.{FitsWire, named, from_labels_iff, from_labels-IsDomain}
use dns_pro.Protocol.DomainName.Presentation.{from_text-to_string}
use dns_pro.Protocol.DomainName.Canonical.{
  same_name_iff, is_subdomain_of_iff, canonical_suffix_key_lem, EndsWith,
}
use dns_pro.Protocol.DomainName.Case.{SameLabels}
use dns_pro.Protocol.Message.{Header, Question, Message, ParseLimits}
use dns_pro.Protocol.NameDecoder.{decode_name}
use dns_pro.Protocol.NameDecoder.Total.{decode_name-Returns}
use dns_pro.Protocol.NameDecoder.RoundTrip.{decode_name-name_bytes}
use dns_pro.Protocol.Parser.{parse_message, decode_flags}
use dns_pro.Protocol.Parser.Total.{parse_message-Returns, parse_message-IsMessage, IsMessage}
use dns_pro.Protocol.Parser.RoundTrip.{parse_message-serialize_query, message_of}
use dns_pro.Protocol.RecordParser.RoundTrip.{IsQuestion}
use dns_pro.Protocol.Writer.{
  message_too_large, encode_flags, flags_of, serialize_query, query_header, write_question_message,
  rewrite_transaction_id, write_words, write_questions, write_question, write_name, write_labels,
}
use dns_pro.Protocol.Writer.Layout.{name_bytes, question_message_bytes, write_question_message_lem}
use dns_pro.Protocol.Writer.Flags.{decode_flags-encode_flags}
use dns_pro.Protocol.Query.{validate_mvp_query, validate_mvp_query_iff, IsMvpQuery}
use dns_pro.Protocol.Response.{
  transaction_id, transaction_id-rewrite_transaction_id, validate_upstream_response,
  validate_upstream_response_iff, IsAnswerTo,
}

abbrev labels_abc : List Bytes
labels_abc = (b'A' ∷ []) ∷ (b'b' ∷ b'c' ∷ []) ∷ []

abbrev lower_abc : List Bytes
lower_abc = (b'a' ∷ []) ∷ (b'b' ∷ b'C' ∷ []) ∷ []

abbrev example_limits : ParseLimits
example_limits = record {
  maximum_packet_size = 512;
  maximum_questions = 1;
  maximum_records_per_section = 4;
  maximum_total_records = 8;
  maximum_compression_pointers = 8;
  require_backward_pointers = true;
  reject_trailing_data = true;
}

abbrev example_header : Header
example_header = record {
  id = 0x1234;
  is_response = false;
  opcode = 0;
  authoritative_answer = false;
  truncated = false;
  recursion_desired = true;
  recursion_available = false;
  reserved_z = false;
  authenticated_data = false;
  checking_disabled = false;
  response_code = 0;
}

abbrev example_packet : Bytes
example_packet =
    0x12 ∷ 0x34 ∷ 1 ∷ 0 ∷ 0 ∷ 1 ∷ 0 ∷ 0 ∷ 0 ∷ 0 ∷ 0 ∷ 0 ∷ 1 ∷ b'A' ∷ 2 ∷ b'b' ∷ b'c' ∷ 0 ∷ 0 ∷ 1 ∷ 0
    ∷ 1 ∷ []

labels_abc-from_labels : from_labels labels_abc ≡ ok (named labels_abc)
unfolding from_labels check_labels
labels_abc-from_labels = refl

lower_abc-from_labels : from_labels lower_abc ≡ ok (named lower_abc)
unfolding from_labels check_labels
lower_abc-from_labels = refl

abbrev example_question : Question
example_question = record { name = named labels_abc; qtype = 1; question_class = 1 }

example-serialize_query :
    serialize_query example_header (example_question ∷ []) 512 ≡ ok example_packet
unfolding serialize_query write_question_message encode_flags write_words Wire.write_u16
    write_questions write_question write_name write_labels Wire.write_u8 Wire.write_bytes flags_of
example-serialize_query = refl

example-encode_flags : encode_flags example_header ≡ ok 256
unfolding encode_flags flags_of
example-encode_flags = refl

example-IsQuestion : IsQuestion example_question
example-IsQuestion = record {
  well_named = (from_labels-IsDomain labels_abc (named labels_abc) labels_abc-from_labels).0;
  type_fits = omega arith;
  class_fits = omega arith;
}

abbrev example_message : Message
example_message = message_of (query_header example_header) (example_question ∷ []) example_packet

example-parse_message : parse_message example_packet example_limits ≡ ok example_message
example-parse_message =
    parse_message-serialize_query example_header (example_question ∷ []) 512 example_limits
      example_packet example-serialize_query (omega arith) (example-IsQuestion, tt) (omega arith)
      (omega arith)

parse_message-Returns_example : Returns (parse_message example_packet example_limits)
parse_message-Returns_example = parse_message-Returns example_packet example_limits

parse_message-IsMessage_example : IsMessage example_packet example_limits example_message
parse_message-IsMessage_example =
    parse_message-IsMessage example_packet example_limits example_message example-parse_message

parse_message-serialize_query_example :
    parse_message example_packet example_limits ≡ ok example_message
parse_message-serialize_query_example =
    parse_message-serialize_query example_header (example_question ∷ []) 512 example_limits
      example_packet example-serialize_query (omega arith) (example-IsQuestion, tt) (omega arith)
      (omega arith)

-- A name that points at itself: the loop is found.
decode_name-Returns_example :
    Returns (decode_name (example_packet ++ 0xc0 ∷ 23 ∷ []) 23 25 example_limits)
decode_name-Returns_example =
    decode_name-Returns (example_packet ++ 0xc0 ∷ 23 ∷ []) 23 25 example_limits

decode_name-name_bytes_example :
    decode_name ((7 ∷ 7 ∷ []) ++ (name_bytes labels_abc ++ 9 ∷ [])) 2 8 example_limits
    ≡ ok (record { name = named labels_abc; next_offset = 8 })
decode_name-name_bytes_example =
    decode_name-name_bytes (7 ∷ 7 ∷ []) (9 ∷ []) labels_abc 8 example_limits
      ((from_labels_iff labels_abc (named labels_abc)).0 labels_abc-from_labels).0 (omega arith)

from_text-to_string_example : from_text (to_string (named labels_abc)) ≡ ok (named labels_abc)
from_text-to_string_example =
    from_text-to_string labels_abc (named labels_abc)
      ((omega arith, tt), ((omega arith, (omega arith, tt)), tt)) labels_abc-from_labels

from_labels_iff_example :
    (from_labels labels_abc ≡ ok (named labels_abc))
    ↔ (FitsWire labels_abc × (named labels_abc ≡ named labels_abc))
from_labels_iff_example = from_labels_iff labels_abc (named labels_abc)

same_name_iff_example :
    (same_name (named labels_abc) (named lower_abc) ≡ true) ↔ SameLabels labels_abc lower_abc
same_name_iff_example =
    same_name_iff labels_abc lower_abc (named labels_abc) (named lower_abc) labels_abc-from_labels
      lower_abc-from_labels

is_subdomain_of_iff_example :
    (is_subdomain_of (named labels_abc) (named (drop 1 lower_abc)) ≡ true)
    ↔ EndsWith labels_abc (drop 1 lower_abc)
is_subdomain_of_iff_example = is_subdomain_of_iff (named labels_abc) (named (drop 1 lower_abc))

canonical_suffix_key_lem_example :
    canonical_suffix_key (named labels_abc) 1 ≡ key_of (drop 1 labels_abc)
canonical_suffix_key_lem_example =
    canonical_suffix_key_lem labels_abc (named labels_abc) 1 labels_abc-from_labels (omega arith)

write_question_message_lem_example :
    write_question_message example_header (example_question ∷ []) 512 ≡ (
      let bytes = question_message_bytes example_header 256 (example_question ∷ []) in
      if leb (length bytes) 512 then ok bytes else err message_too_large)
write_question_message_lem_example =
    write_question_message_lem example_header (example_question ∷ []) 512 256 (omega arith)
      (omega arith) example-encode_flags

decode_flags-encode_flags_example : (256 < 2 ^ 16) × (decode_flags 0x1234 256 ≡ example_header)
decode_flags-encode_flags_example =
    decode_flags-encode_flags example_header 256 example-encode_flags

validate_mvp_query_iff_example :
    (validate_mvp_query example_message ≡ ok example_question)
    ↔ IsMvpQuery example_message example_question
validate_mvp_query_iff_example = validate_mvp_query_iff example_message example_question

abbrev example_response : Message
example_response = record example_message { header = record example_header { is_response = true } }

validate_upstream_response_iff_example :
    (validate_upstream_response example_response 0x1234 0 example_question ≡ ok tt)
    ↔ IsAnswerTo example_response 0x1234 0 example_question
validate_upstream_response_iff_example =
    validate_upstream_response_iff example_response 0x1234 0 example_question

transaction_id-rewrite_transaction_id_example :
    (rewritten : Bytes) × (rewrite_transaction_id example_packet 0xabcd ≡ ok rewritten)
    × (transaction_id rewritten ≡ some 0xabcd)
    × (drop 2 rewritten ≡ drop 2 example_packet)
    × (length rewritten ≡ length example_packet)
transaction_id-rewrite_transaction_id_example =
    transaction_id-rewrite_transaction_id example_packet 0xabcd (omega arith) (omega arith)
