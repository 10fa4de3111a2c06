-- ===== src/Cache/Policy.antt =====
-- CachePolicy.h and CachePolicy.cpp, and IPAddress of DNS_Cache.h: which upstream responses the
-- cache takes. `bytes` has 16 bytes; std::transform copies a record's data, whose length was tested,
-- and the rest of an IPv4 address is zero.
use dns_pro.Base.{
  ℕ, ◌-◌, ◌^◌, ◌≤◌, ◌<◌, min, ◌≡◌, sym, ap, ap₂, ◌∙◌, ◌↔◌, ◌⊎◌, inl, inr, Bool, true, false, not,
  ◌&&◌, ◌||◌, Option, none, some, List, [], ◌∷◌, ◌++◌, map, append-nil, append_assoc, arith, ltb,
  ◌==◌, if◌then◌else◌, Option-cases, length, get_elem?, All, bytes_eq_iff,
}
use dns_pro.Protocol.Wire.{Bytes}
use dns_pro.Protocol.DomainName.{same_name}
use dns_pro.Protocol.Message.{
  Question, ResourceRecord, Message, RecordType, type_value, ResponseCode, code_value,
}
use dns_pro.Protocol.Query.{length-nil}
use dns_pro.Protocol.Response.{same_question, only_question}

pub data AddressFamily : Type 0 where
  af_unspec af_inet af_inet6 : AddressFamily

pub record IpAddress : Type 0 where
  pub bytes : Bytes
  pub family : AddressFamily

abbrev pub v4 : Bytes → IpAddress
v4 value = record {
  bytes = value ++ 0 ∷ 0 ∷ 0 ∷ 0 ∷ 0 ∷ 0 ∷ 0 ∷ 0 ∷ 0 ∷ 0 ∷ 0 ∷ 0 ∷ [];
  family = af_inet;
}

abbrev pub v6 : Bytes → IpAddress
v6 value = record { bytes = value; family = af_inet6 }

pub record CacheableAddressSet : Type 0 where
  pub addresses : List IpAddress
  pub ttl : ℕ

-- The address of one answer, if it can be cached.
unfoldable pub answer_address : Question → ResourceRecord → Option IpAddress
answer_address expected_question answer =
    if not (same_name answer.name expected_question.name)
      || not (answer.rtype == expected_question.qtype)
      || not (answer.record_class == expected_question.question_class)
      || answer.ttl == 0
    then none
    else if answer.rtype == type_value RecordType.a && length answer.rdata == 4
    then some (v4 answer.rdata)
    else if answer.rtype == type_value RecordType.aaaa && length answer.rdata == 16
    then some (v6 answer.rdata)
    else none

abbrev add_answer : CacheableAddressSet → IpAddress → ℕ → CacheableAddressSet
add_answer result address ttl = record {
  addresses = result.addresses ++ address ∷ [];
  ttl = min result.ttl ttl;
}

-- The loop over the answers.
unfoldable pub collect_answers :
    Question → List ResourceRecord → CacheableAddressSet → Option CacheableAddressSet
collect_answers expected_question [] result = some result
collect_answers expected_question (answer ∷ answers) result =
    elim (answer_address expected_question answer) [
      | none ↦ none
      | some address ↦
          collect_answers expected_question answers (add_answer result address answer.ttl)
    ]

abbrev pub fits_question : Message → Question → Bool
fits_question response expected_question = elim (get_elem? response.questions 0) [
  | none ↦ false
  | some question ↦ same_question question expected_question
]

unfoldable pub cacheable_address_set : Message → Question → Option CacheableAddressSet
cacheable_address_set response expected_question =
    if not response.header.is_response
      || response.header.truncated
      || not (response.header.response_code == code_value ResponseCode.no_error)
      || not (length response.questions == 1)
      || not (fits_question response expected_question)
      || length response.answers == 0
      || ltb 65535 (length response.answers)
      || not (length response.authorities == 0)
      || not (length response.additionals == 0)
    then none
    else collect_answers expected_question response.answers
        (record { addresses = []; ttl = 2 ^ 32 - 1 })

-- An answer that is an address record for the question.
pub record IsUsable (expected : Question) (answer : ResourceRecord) : Type 0 where
  pub same_key : answer.name.canonical_key ≡ expected.name.canonical_key
  pub same_type : answer.rtype ≡ expected.qtype
  pub same_class : answer.record_class ≡ expected.question_class
  pub lives : 0 < answer.ttl
  pub is_address :
      ((answer.rtype ≡ 1) × (length answer.rdata ≡ 4))
      ⊎ ((answer.rtype ≡ 28) × (length answer.rdata ≡ 16))

-- The address that an address record holds.
abbrev pub address_of : ResourceRecord → IpAddress
address_of answer = if answer.rtype == 1 then v4 answer.rdata else v6 answer.rdata

abbrev pub least_ttl : List ResourceRecord → ℕ
least_ttl [] = 2 ^ 32 - 1
least_ttl (answer ∷ answers) = min answer.ttl (least_ttl answers)

answer_address_lem :
    (expected : Question) (answer : ResourceRecord)
    → IsUsable expected answer
    → answer_address expected answer ≡ some (address_of answer)
unfolding answer_address same_name
answer_address_lem expected answer h =
    ground (arith, bytes_eq_iff answer.name.canonical_key expected.name.canonical_key)

answer_address-IsUsable :
    (expected : Question) (answer : ResourceRecord) (address : IpAddress)
    → answer_address expected answer ≡ some address
    → IsUsable expected answer
unfolding answer_address same_name
answer_address-IsUsable expected answer address e =
    let same = bytes_eq_iff answer.name.canonical_key expected.name.canonical_key in
    record {
      same_key = ground (arith, same);
      same_type = ground arith;
      same_class = ground arith;
      lives = ground arith;
      is_address = ground arith;
    }

collect_answers_lem :
    (expected : Question) (answers : List ResourceRecord) (result : CacheableAddressSet)
    → result.ttl ≤ 2 ^ 32 - 1
    → All (IsUsable expected) answers
    → collect_answers expected answers result
      ≡ some (record {
        addresses = result.addresses ++ map address_of answers;
        ttl = min result.ttl (least_ttl answers);
      })
unfolding collect_answers
collect_answers_lem expected [] result small h =
    ap₂ (λ addresses ttl. some (record { addresses = addresses; ttl = ttl }))
      (sym (append-nil result.addresses)) (omega arith)
collect_answers_lem expected (answer ∷ answers) result small h =
    rw (answer_address_lem expected answer h.0, collect_answers)
      (collect_answers_lem expected answers (add_answer result (address_of answer) answer.ttl)
          (omega arith) h.1
        ∙ ap₂ (λ addresses ttl. some (record { addresses = addresses; ttl = ttl }))
            (append_assoc result.addresses (address_of answer ∷ []) (map address_of answers))
            (omega arith))

collect_answers-IsUsable :
    (expected : Question) (answers : List ResourceRecord) (result s : CacheableAddressSet)
    → collect_answers expected answers result ≡ some s
    → All (IsUsable expected) answers
unfolding collect_answers
collect_answers-IsUsable expected [] result s e = tt
collect_answers-IsUsable expected (answer ∷ answers) result s e =
    elim (Option-cases (answer_address expected answer)) [
      | inl missing ↦ absurd (ground (arith, missing))
      | inr (address, found) ↦ (
        answer_address-IsUsable expected answer address found,
        collect_answers-IsUsable expected answers (add_answer result address answer.ttl) s
            (ground (arith, found, e)),
      )
    ]

fits_one :
    (response : Message) (expected question : Question)
    → response.questions ≡ question ∷ []
    → (fits_question response expected ≡ true) ↔ (same_question question expected ≡ true)
fits_one response expected question e = rw e (λ h. h, λ h. h)

-- A response that the cache admits: a complete answer without error to the question alone.
pub record IsCacheable (response : Message) (expected : Question) : Type 0 where
  pub is_response : response.header.is_response ≡ true
  pub complete : response.header.truncated ≡ false
  pub no_error : response.header.response_code ≡ 0
  pub question : Question
  pub one_question : response.questions ≡ question ∷ []
  pub same_question : same_question question expected ≡ true
  pub some_answer : 0 < length response.answers
  pub answers_fit : length response.answers ≤ 65535
  pub no_authorities : response.authorities ≡ []
  pub no_additionals : response.additionals ≡ []
  pub usable : All (IsUsable expected) response.answers

abbrev pub address_set : Message → CacheableAddressSet
address_set response = record {
  addresses = map address_of response.answers;
  ttl = least_ttl response.answers;
}

least_ttl-le : (answers : List ResourceRecord) → least_ttl answers ≤ 2 ^ 32 - 1
least_ttl-le [] = omega arith
least_ttl-le (answer ∷ answers) = omega (arith, least_ttl-le answers)

admitted :
    (response : Message) (expected : Question)
    → IsCacheable response expected
    → cacheable_address_set response expected ≡ some (address_set response)
unfolding cacheable_address_set
admitted response expected h =
    let fits : fits_question response expected ≡ true =
      (fits_one response expected h.question h.one_question).1 h.same_question in
    let collected =
      collect_answers_lem expected response.answers (record { addresses = []; ttl = 2 ^ 32 - 1 })
        (omega arith) h.usable in
    ground (arith, fits, collected, least_ttl-le response.answers)

admits :
    (response : Message) (expected : Question) (s : CacheableAddressSet)
    → cacheable_address_set response expected ≡ some s
    → IsCacheable response expected
unfolding cacheable_address_set
admits response expected s e =
    let (question, is_one) = only_question response (ground arith) in
    let fits : fits_question response expected ≡ true = ground arith in
    record {
      is_response = ground arith;
      complete = ground arith;
      no_error = ground arith;
      question = question;
      one_question = is_one;
      same_question = (fits_one response expected question is_one).0 fits;
      some_answer = ground arith;
      answers_fit = ground arith;
      no_authorities = length-nil response.authorities (ground arith);
      no_additionals = length-nil response.additionals (ground arith);
      usable =
          collect_answers-IsUsable expected response.answers
            (record { addresses = []; ttl = 2 ^ 32 - 1 }) s (ground arith);
    }

-- A response is admitted to the cache exactly when it is a complete response without error to the
-- expected question alone, with 1 to 65535 answers and no other record, where each answer is an A or
-- AAAA record of the right length that repeats the question's name, type and class and has a time to
-- live; what is cached then is the addresses of all answers in order, with the least time to live.
pub cacheable_address_set_iff :
    (response : Message) (expected : Question) (s : CacheableAddressSet)
    → (cacheable_address_set response expected ≡ some s)
      ↔ (IsCacheable response expected × (s ≡ address_set response))
cacheable_address_set_iff response expected s = (
  λ e. let h = admits response expected s e in (h, cc (admitted response expected h, e)),
  λ h. admitted response expected h.0 ∙ ap some (sym h.1),
)
