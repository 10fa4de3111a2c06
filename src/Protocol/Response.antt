-- ===== src/Protocol/Response.antt =====
-- protocol/DnsResponse.h and protocol/DnsResponse.cpp: matching an upstream response to its query.
use dns_pro.Base.{
  ℕ, ◌*◌, ◌/◌, ◌%◌, ◌^◌, ◌≤◌, ◌<◌, bit_and, bit_or, ◌≡◌, refl, ◌↔◌, Bool, true, false, not, ◌&&◌,
  Option, none, some, List, [], ◌∷◌, arith, ◌==◌, length, get_elem?, drop, bytes_eq_iff, Outcome,
  ok, ◌>>=◌, ◌>>◌, refuse_if, in_bounds,
}
use dns_pro.Protocol.Wire.{Bytes}
use dns_pro.Protocol.Wire.RoundTrip.{join_u16}
use dns_pro.Protocol.DomainName.{same_name}
use dns_pro.Protocol.Message.{Question, Message}
use dns_pro.Protocol.Writer.{rewrite_transaction_id}

pub data ResponseValidationError : Type 0 where
  not_a_response wrong_transaction_id wrong_opcode : ResponseValidationError
  invalid_header_flags wrong_question_count question_mismatch : ResponseValidationError

unfoldable pub transaction_id : Bytes → Option ℕ
transaction_id [] = none
transaction_id (high ∷ []) = none
transaction_id (high ∷ low ∷ rest) = some (bit_or (high * 2 ^ 8) low % 2 ^ 16)

-- operator== of Question.
unfoldable pub same_question : Question → Question → Bool
same_question question other =
    same_name question.name other.name
    && question.qtype == other.qtype
    && question.question_class == other.question_class

unfoldable pub validate_upstream_response :
    Message → ℕ → ℕ → Question → Outcome ResponseValidationError (Unit {0})
validate_upstream_response m expected_transaction_id expected_opcode expected_question = do
  refuse_if (not m.header.is_response) not_a_response
  refuse_if (not (m.header.id == expected_transaction_id)) wrong_transaction_id
  refuse_if (not (m.header.opcode == expected_opcode)) wrong_opcode
  refuse_if m.header.reserved_z invalid_header_flags
  refuse_if (not (length m.questions == 1)) wrong_question_count
  question ← in_bounds (get_elem? m.questions 0)
  refuse_if (not (same_question question expected_question)) question_mismatch

pub record IsAnswerTo (m : Message) (id opcode : ℕ) (expected : Question) : Type 0 where
  pub response : m.header.is_response ≡ true
  pub same_id : m.header.id ≡ id
  pub same_opcode : m.header.opcode ≡ opcode
  pub reserved_clear : m.header.reserved_z ≡ false
  pub question : Question
  pub one_question : m.questions ≡ question ∷ []
  pub same_key : question.name.canonical_key ≡ expected.name.canonical_key
  pub same_type : question.qtype ≡ expected.qtype
  pub same_class : question.question_class ≡ expected.question_class

same_question_iff :
    (question other : Question)
    → (same_question question other ≡ true) ↔ (
        (question.name.canonical_key ≡ other.name.canonical_key)
        × (question.qtype ≡ other.qtype)
        × (question.question_class ≡ other.question_class))
unfolding same_question same_name
same_question_iff question other =
    ground (arith, bytes_eq_iff question.name.canonical_key other.name.canonical_key)

pub only_question :
    (m : Message) → length m.questions ≡ 1 → (question : Question) × (m.questions ≡ question ∷ [])
only_question m h = go m.questions h
  where
    go : (xs : List Question) → length xs ≡ 1 → (question : Question) × (xs ≡ question ∷ [])
    go [] k = absurd (omega arith)
    go (x ∷ []) k = (x, refl)
    go (x ∷ y ∷ xs) k = absurd (omega arith)

answered :
    (m : Message) (id opcode : ℕ) (expected : Question)
    → validate_upstream_response m id opcode expected ≡ ok tt
    → IsAnswerTo m id opcode expected
unfolding validate_upstream_response
answered m id opcode expected e =
    let one : length m.questions ≡ 1 = ground arith in
    let (question, is_one) = only_question m one in
    let same = (same_question_iff question expected).0 (ground arith) in
    record {
      response = ground arith;
      same_id = ground arith;
      same_opcode = ground arith;
      reserved_clear = ground arith;
      question = question;
      one_question = is_one;
      same_key = same.0;
      same_type = same.1;
      same_class = same.2;
    }

answers :
    (m : Message) (id opcode : ℕ) (expected : Question)
    → IsAnswerTo m id opcode expected
    → validate_upstream_response m id opcode expected ≡ ok tt
unfolding validate_upstream_response
answers m id opcode expected h = ground (arith, same_question_iff h.question expected)

-- An upstream response is accepted exactly when it is a response with the expected transaction id
-- and opcode, with the reserved bit clear, and with one question, which has the canonical name, the
-- type and the class of the expected one.
pub validate_upstream_response_iff :
    (m : Message) (id opcode : ℕ) (expected : Question)
    → (validate_upstream_response m id opcode expected ≡ ok tt) ↔ IsAnswerTo m id opcode expected
validate_upstream_response_iff m id opcode expected =
    (answered m id opcode expected, answers m id opcode expected)

-- After `rewrite_transaction_id` the packet carries the new id, and every byte behind the first two
-- is as it was, for an id of 16 bits and a packet of two bytes or more.
pub transaction_id-rewrite_transaction_id :
    (packet : Bytes) (id : ℕ)
    → id < 2 ^ 16
    → 2 ≤ length packet
    → (rewritten : Bytes) × (rewrite_transaction_id packet id ≡ ok rewritten)
      × (transaction_id rewritten ≡ some id)
      × (drop 2 rewritten ≡ drop 2 packet)
      × (length rewritten ≡ length packet)
unfolding rewrite_transaction_id transaction_id
transaction_id-rewrite_transaction_id [] id h k = absurd (omega arith)
transaction_id-rewrite_transaction_id (a ∷ []) id h k = absurd (omega arith)
transaction_id-rewrite_transaction_id (a ∷ b ∷ rest) id h k = (
  bit_and (id / 2 ^ 8) 0xff ∷ bit_and id 0xff ∷ rest,
  ground arith,
  ground (arith, join_u16 id h),
  refl,
  refl,
)
