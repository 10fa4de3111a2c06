-- ===== src/Protocol/Query.antt =====
-- protocol/DnsQuery.h and protocol/DnsQuery.cpp: which messages the service answers as queries.
use dns_pro.Base.{
  ◌≡◌, refl, ◌↔◌, ◌⊎◌, false, not, ◌&&◌, ◌||◌, some, List, [], ◌∷◌, arith, ◌==◌, length, get_elem?,
  Outcome, ok, ◌>>=◌, ◌>>◌, refuse_if, in_bounds,
}
use dns_pro.Protocol.Message.{
  Question, Message, RecordType, type_value, RecordClass, class_value, Opcode, opcode_value,
  ResponseCode, code_value,
}

pub data QueryError : Type 0 where
  not_a_query unsupported_opcode invalid_header_flags wrong_question_count : QueryError
  unexpected_answer_section extensions_not_supported unsupported_type unsupported_class : QueryError

check_question : Question → Outcome QueryError Question
check_question question = do
  refuse_if (not (question.question_class == class_value RecordClass.internet)) unsupported_class
  refuse_if
      (not (question.qtype == type_value RecordType.a)
        && not (question.qtype == type_value RecordType.aaaa))
      unsupported_type
  ok question

unfoldable pub validate_mvp_query : Message → Outcome QueryError Question
unfolding check_question
validate_mvp_query m = do
  refuse_if m.header.is_response not_a_query
  refuse_if (not (m.header.opcode == opcode_value Opcode.query)) unsupported_opcode
  refuse_if
      (m.header.authoritative_answer
        || m.header.truncated
        || m.header.recursion_available
        || m.header.reserved_z
        || not (m.header.response_code == code_value ResponseCode.no_error))
      invalid_header_flags
  refuse_if (not (length m.questions == 1)) wrong_question_count
  refuse_if (not (length m.answers == 0) || not (length m.authorities == 0))
      unexpected_answer_section
  refuse_if (not (length m.additionals == 0)) extensions_not_supported
  question ← in_bounds (get_elem? m.questions 0)
  check_question question

unfoldable pub response_code_for : QueryError → ResponseCode
response_code_for wrong_question_count = ResponseCode.form_err
response_code_for unexpected_answer_section = ResponseCode.form_err
response_code_for invalid_header_flags = ResponseCode.form_err
response_code_for not_a_query = ResponseCode.not_imp
response_code_for unsupported_opcode = ResponseCode.not_imp
response_code_for extensions_not_supported = ResponseCode.not_imp
response_code_for unsupported_type = ResponseCode.not_imp
response_code_for unsupported_class = ResponseCode.not_imp

-- A standard query for one address record of class IN, with nothing else in it.
pub record IsMvpQuery (m : Message) (question : Question) : Type 0 where
  pub query : m.header.is_response ≡ false
  pub opcode : m.header.opcode ≡ 0
  pub not_authoritative : m.header.authoritative_answer ≡ false
  pub not_truncated : m.header.truncated ≡ false
  pub no_recursion_available : m.header.recursion_available ≡ false
  pub reserved_clear : m.header.reserved_z ≡ false
  pub no_error_code : m.header.response_code ≡ 0
  pub one_question : m.questions ≡ question ∷ []
  pub no_answers : m.answers ≡ []
  pub no_authorities : m.authorities ≡ []
  pub no_additionals : m.additionals ≡ []
  pub internet_class : question.question_class ≡ 1
  pub address_type : (question.qtype ≡ 1) ⊎ (question.qtype ≡ 28)

pub length-nil : {A : Type 0} (xs : List A) → length xs ≡ 0 → xs ≡ []
length-nil [] h = refl
length-nil (x ∷ xs) h = absurd (omega arith)

length_one :
    {A : Type 0} (xs : List A) (x : A) → length xs ≡ 1 → get_elem? xs 0 ≡ some x → xs ≡ x ∷ []
length_one [] x h e = absurd (omega arith)
length_one (y ∷ []) x h e = ground arith
length_one (y ∷ z ∷ xs) x h e = absurd (omega arith)

validated :
    (m : Message) (question : Question) → validate_mvp_query m ≡ ok question → IsMvpQuery m question
unfolding validate_mvp_query
validated m question e = ground (
  arith,
  length_one m.questions question,
  length-nil m.answers,
  length-nil m.authorities,
  length-nil m.additionals,
)

validates :
    (m : Message) (question : Question) → IsMvpQuery m question → validate_mvp_query m ≡ ok question
unfolding validate_mvp_query
validates m question h = ground arith

-- `validate_mvp_query` returns a question exactly for the messages that are queries of opcode 0 with
-- no response flag and no error code set, that hold this one question and no record, and that ask
-- for an A or AAAA record of class IN.
pub validate_mvp_query_iff :
    (m : Message) (question : Question)
    → (validate_mvp_query m ≡ ok question) ↔ IsMvpQuery m question
validate_mvp_query_iff m question = (validated m question, validates m question)
