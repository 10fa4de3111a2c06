-- ===== src/Protocol/Writer.antt =====
-- protocol/DnsWriter.h and protocol/DnsWriter.cpp. A failed write of WireWriter is `none`, and the
-- code answers it with MessageTooLarge. An AddressAnswerView is its bytes.
pub mod Flags
pub mod Layout
use dns_pro.Base.{
  ℕ, ◌*◌, ◌/◌, ◌%◌, ◌^◌, bit_and, bit_or, Bool, true, false, not, Option, some, List, [], ◌∷◌, set,
  ltb, ◌==◌, if◌then◌else◌, length, Outcome, ok, err, ◌>>=◌, ◌>>◌, refuse_if, or_fail, in_bounds,
  get_elem?,
}
use dns_pro.Protocol.Wire.{
  Bytes, Writer, byte_at, new_writer, write_u8, write_u16, write_u32, write_bytes,
}
use dns_pro.Protocol.Wire.Writes.{◌>>=◌ as then_write}
use dns_pro.Protocol.DomainName.{DomainName}
use dns_pro.Protocol.Message.{
  Header, Question, Message, RecordType, type_value, ResponseCode, code_value, Opcode, opcode_value,
}

pub data WriteError : Type 0 where
  message_too_large too_many_questions too_many_answers : WriteError
  invalid_opcode invalid_response_code invalid_maximum_size expected_query : WriteError
  missing_transaction_id wrong_question_count unsupported_address_type : WriteError
  invalid_address_length missing_answers : WriteError

-- The member initialisers of Header.
abbrev pub default_header : Header
default_header = record {
  id = 0;
  is_response = false;
  opcode = opcode_value Opcode.query;
  authoritative_answer = false;
  truncated = false;
  recursion_desired = false;
  recursion_available = false;
  reserved_z = false;
  authenticated_data = false;
  checking_disabled = false;
  response_code = code_value ResponseCode.no_error;
}

abbrev pub flag_if : Bool → ℕ → ℕ
flag_if test mask = if test then mask else 0

unfoldable pub flags_of : Header → ℕ
flags_of h =
    let f1 : ℕ = bit_or 0 (flag_if h.is_response 0x8000) in
    let f2 : ℕ = bit_or f1 (h.opcode * 2 ^ 11) in
    let f3 : ℕ = bit_or f2 (flag_if h.authoritative_answer 0x0400) in
    let f4 : ℕ = bit_or f3 (flag_if h.truncated 0x0200) in
    let f5 : ℕ = bit_or f4 (flag_if h.recursion_desired 0x0100) in
    let f6 : ℕ = bit_or f5 (flag_if h.recursion_available 0x0080) in
    let f7 : ℕ = bit_or f6 (flag_if h.reserved_z 0x0040) in
    let f8 : ℕ = bit_or f7 (flag_if h.authenticated_data 0x0020) in
    let f9 : ℕ = bit_or f8 (flag_if h.checking_disabled 0x0010) in bit_or f9 h.response_code

unfoldable pub encode_flags : Header → Outcome WriteError ℕ
encode_flags h = do
  refuse_if (ltb 0x0f h.opcode) invalid_opcode
  refuse_if (ltb 0x0f h.response_code) invalid_response_code
  ok (flags_of h)

unfoldable pub write_labels : Writer → List Bytes → Option Writer
write_labels w [] = some w
write_labels w (label ∷ labels) =
    then_write (write_u8 w (length label % 256))
      λ w1. then_write (write_bytes w1 label) λ w2. write_labels w2 labels

unfoldable pub write_name : Writer → DomainName → Option Writer
write_name w name = then_write (write_labels w name.labels) λ w1. write_u8 w1 0

unfoldable pub write_words : Writer → List ℕ → Option Writer
write_words w [] = some w
write_words w (value ∷ values) = then_write (write_u16 w value) λ w1. write_words w1 values

unfoldable pub write_question : Writer → Question → Option Writer
write_question w question =
    then_write (write_name w question.name)
      λ w1. write_words w1 (question.qtype ∷ question.question_class ∷ [])

unfoldable pub write_questions : Writer → List Question → Option Writer
write_questions w [] = some w
write_questions w (question ∷ questions) =
    then_write (write_question w question) λ w1. write_questions w1 questions

unfoldable pub write_question_message : Header → List Question → ℕ → Outcome WriteError Bytes
write_question_message header questions maximum_size = do
  refuse_if (ltb 65535 maximum_size) invalid_maximum_size
  refuse_if (ltb 65535 (length questions)) too_many_questions
  flags ← encode_flags header
  w1 ←
      or_fail
        (write_words (new_writer maximum_size)
          (header.id ∷ flags ∷ (length questions % 2 ^ 16) ∷ 0 ∷ 0 ∷ 0 ∷ []))
        message_too_large
  w2 ← or_fail (write_questions w1 questions) message_too_large
  ok w2.bytes

unfoldable pub address_size : ℕ → Outcome WriteError ℕ
address_size qtype =
    if qtype == type_value RecordType.a
    then ok 4
    else if qtype == type_value RecordType.aaaa
    then ok 16
    else err unsupported_address_type

unfoldable pub check_addresses : ℕ → List Bytes → Outcome WriteError (Unit {0})
check_addresses expected_size [] = ok tt
check_addresses expected_size (answer ∷ answers) = do
  refuse_if (not (length answer == expected_size)) invalid_address_length
  check_addresses expected_size answers

-- The name of an answer is a pointer to the question at the fixed header size.
unfoldable pub write_answer : Writer → Question → ℕ → Bytes → Option Writer
write_answer w question ttl answer =
    then_write (write_words w (0xc00c ∷ question.qtype ∷ question.question_class ∷ [])) λ w1.
      then_write (write_u32 w1 ttl)
        λ w2. then_write (write_u16 w2 (length answer % 2 ^ 16)) λ w3. write_bytes w3 answer

unfoldable pub write_answers : Writer → Question → ℕ → List Bytes → Option Writer
write_answers w question ttl [] = some w
write_answers w question ttl (answer ∷ answers) =
    then_write (write_answer w question ttl answer) λ w1. write_answers w1 question ttl answers

unfoldable pub write_address_message :
    Header → Question → List Bytes → ℕ → ℕ → Outcome WriteError Bytes
write_address_message header question answers ttl maximum_size = do
  refuse_if (ltb 65535 maximum_size) invalid_maximum_size
  refuse_if (length answers == 0) missing_answers
  refuse_if (ltb 65535 (length answers)) too_many_answers
  expected_size ← address_size question.qtype
  check_addresses expected_size answers
  flags ← encode_flags header
  w1 ←
      or_fail
        (write_words (new_writer maximum_size)
          (header.id ∷ flags ∷ 1 ∷ (length answers % 2 ^ 16) ∷ 0 ∷ 0 ∷ []))
        message_too_large
  w2 ← or_fail (write_question w1 question) message_too_large
  w3 ← or_fail (write_answers w2 question ttl answers) message_too_large
  ok w3.bytes

abbrev pub query_header : Header → Header
query_header header = record header {
  authoritative_answer = false;
  truncated = false;
  recursion_available = false;
  response_code = code_value ResponseCode.no_error;
}

unfoldable pub serialize_query : Header → List Question → ℕ → Outcome WriteError Bytes
serialize_query header questions maximum_size = do
  refuse_if header.is_response expected_query
  write_question_message (query_header header) questions maximum_size

unfoldable pub rewrite_transaction_id : Bytes → ℕ → Outcome WriteError Bytes
rewrite_transaction_id packet transaction_id = do
  refuse_if (ltb (length packet) 2) missing_transaction_id
  ok (set (set packet 0 (bit_and (transaction_id / 2 ^ 8) 0xff)) 1 (bit_and transaction_id 0xff))

abbrev pub response_header : Header → ResponseCode → Bool → Header
response_header request response_code recursion_available = record default_header {
  id = request.id;
  is_response = true;
  opcode = request.opcode;
  recursion_desired = request.recursion_desired;
  recursion_available = recursion_available;
  checking_disabled = request.checking_disabled;
  response_code = code_value response_code;
}

-- A message that is too large is tried again without its question.
unfoldable pub retry_if_too_large :
    Outcome WriteError Bytes → Outcome WriteError Bytes → Outcome WriteError Bytes
retry_if_too_large (err message_too_large) again = again
retry_if_too_large first again = first

unfoldable pub make_error_response : Message → ResponseCode → Bool → ℕ → Outcome WriteError Bytes
make_error_response request response_code recursion_available maximum_size = do
  refuse_if request.header.is_response expected_query
  let header : Header = response_header request.header response_code recursion_available
  retry_if_too_large (write_question_message header request.questions maximum_size)
      (write_question_message header [] maximum_size)

-- Opcode and RD from the third byte, when it is there.
unfoldable pub high_flags_of : Bytes → Header → Outcome WriteError Header
high_flags_of prefix header = elim (ltb (length prefix) 3) [
  | true ↦ ok header
  | false ↦ byte_at prefix 2 >>= λ high_flags.
      refuse_if (not (bit_and high_flags 0x80 == 0)) expected_query
      >> ok (record header {
        opcode = bit_and (high_flags / 2 ^ 3) 0x0f;
        recursion_desired = not (bit_and high_flags 0x01 == 0);
      })
]

-- CD from the fourth byte, when it is there.
unfoldable pub low_flags_of : Bytes → Header → Outcome WriteError Header
low_flags_of prefix header = elim (ltb (length prefix) 4) [
  | true ↦ ok header
  | false ↦ byte_at prefix 3 >>= λ low_flags.
      ok (record header { checking_disabled = not (bit_and low_flags 0x10 == 0) })
]

unfoldable pub make_header_only_error_response :
    Bytes → ResponseCode → Bool → ℕ → Outcome WriteError Bytes
make_header_only_error_response request_prefix response_code recursion_available maximum_size = do
  refuse_if (ltb (length request_prefix) 2) missing_transaction_id
  high ← byte_at request_prefix 0
  low ← byte_at request_prefix 1
  let header : Header = record default_header {
    id = bit_or (high * 2 ^ 8) low % 2 ^ 16;
    is_response = true;
    recursion_available = recursion_available;
    response_code = code_value response_code;
  }
  header' ← high_flags_of request_prefix header
  header'' ← low_flags_of request_prefix header'
  write_question_message header'' [] maximum_size

unfoldable pub make_format_error_response : Bytes → Bool → ℕ → Outcome WriteError Bytes
make_format_error_response malformed_request =
    make_header_only_error_response malformed_request ResponseCode.form_err

unfoldable pub make_address_response :
    Message → List Bytes → ℕ → Bool → ℕ → Outcome WriteError Bytes
make_address_response request answers ttl recursion_available maximum_size = do
  refuse_if request.header.is_response expected_query
  refuse_if (not (length request.questions == 1)) wrong_question_count
  question ← in_bounds (get_elem? request.questions 0)
  write_address_message (response_header request.header ResponseCode.no_error recursion_available)
      question answers ttl maximum_size
