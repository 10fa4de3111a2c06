-- ===== src/Protocol/RecordParser/RoundTrip.antt =====
-- Questions that the writer lays out are parsed back.
use dns_pro.Base.{
  ◌+◌, ◌^◌, ◌<◌, ◌≡◌, refl, sym, ap, ◌∙◌, List, [], ◌∷◌, ◌++◌, append-nil, append_assoc, arith,
  length, All, length-append, ok,
}
use dns_pro.Protocol.Wire.{Bytes, u16_bytes}
use dns_pro.Protocol.Wire.RoundTrip.{read_u16-at}
use dns_pro.Protocol.DomainName.Valid.{IsDomain, wire_length}
use dns_pro.Protocol.Message.{ParseLimits, Question}
use dns_pro.Protocol.NameDecoder.RoundTrip.{decode_name-at}
use dns_pro.Protocol.Writer.Layout.{
  labels_bytes, name_bytes, words_bytes, question_bytes, questions_bytes,
}
use dns_pro.Protocol.RecordParser.{parse_question, parse_section}

-- A question that a message can hold.
pub record IsQuestion (question : Question) : Type 0 where
  pub well_named : IsDomain question.name
  pub type_fits : question.qtype < 2 ^ 16
  pub class_fits : question.question_class < 2 ^ 16

pub length-labels_bytes :
    (labels : List Bytes) → length (labels_bytes labels) + 1 ≡ wire_length labels
length-labels_bytes [] = refl
length-labels_bytes (label ∷ labels) =
    omega (arith, length-append label (labels_bytes labels), length-labels_bytes labels)

length-name_bytes : (labels : List Bytes) → length (name_bytes labels) ≡ wire_length labels
length-name_bytes labels =
    omega (arith, length-append (labels_bytes labels) (0 ∷ []), length-labels_bytes labels)

module _ (packet : Bytes) (limits : ParseLimits) where
  parse_question-question_bytes :
      (front rest : Bytes) (question : Question)
      → IsQuestion question
      → packet ≡ front ++ (question_bytes question ++ rest)
      → parse_question packet limits (length front)
        ≡ ok (question, length front + length (question_bytes question))
  unfolding parse_question
  parse_question-question_bytes front rest question q e =
      let labels = question.name.labels in
      let words = words_bytes (question.qtype ∷ question.question_class ∷ []) in
      let at_name : packet ≡ front ++ (name_bytes labels ++ (words ++ rest)) =
        e ∙ ap (◌++◌ front) (append_assoc (name_bytes labels) words rest) in
      let at_type : packet ≡ (front ++ name_bytes labels) ++ (words ++ rest) =
        at_name ∙ sym (append_assoc front (name_bytes labels) (words ++ rest)) in
      let at_class : packet
          ≡ ((front ++ name_bytes labels) ++ u16_bytes question.qtype)
            ++ (u16_bytes question.question_class ++ rest) =
        at_type ∙ sym (append_assoc (front ++ name_bytes labels) (u16_bytes question.qtype) _) in
      let size =
        let x : length (front ++ name_bytes labels) ≡ length front + wire_length labels =
          omega (arith, length-append front (name_bytes labels), length-name_bytes labels) in
        x in
      let decoded =
        decode_name-at packet front (words ++ rest) labels (length packet) limits q.well_named.0
          (omega (
            arith,
            ap length at_type,
            length-append (front ++ name_bytes labels) (words ++ rest),
            size,
          ))
          at_name in
      let first =
        read_u16-at packet (front ++ name_bytes labels) (length front + wire_length labels)
          (sym size) question.qtype _ q.type_fits at_type in
      let second =
        read_u16-at packet ((front ++ name_bytes labels) ++ u16_bytes question.qtype)
          (length front + wire_length labels + 2)
          (omega
            (arith, size, length-append (front ++ name_bytes labels) (u16_bytes question.qtype)))
          question.question_class rest q.class_fits at_class in
      rw (decoded, first, second)
        (ground (
          arith,
          q.well_named.1,
          length-append (name_bytes labels) words,
          length-name_bytes labels,
        ))

  pub parse_section-questions_bytes :
      (front rest : Bytes) (questions output : List Question)
      → All IsQuestion questions
      → packet ≡ front ++ (questions_bytes questions ++ rest)
      → parse_section (length questions) (parse_question packet limits) output (length front)
        ≡ ok (output ++ questions, length front + length (questions_bytes questions))
  unfolding parse_section
  parse_section-questions_bytes front rest [] output q e = ground (arith, append-nil output)
  parse_section-questions_bytes front rest (question ∷ questions) output q e =
      let bytes = question_bytes question in
      let at_first : packet ≡ front ++ (bytes ++ (questions_bytes questions ++ rest)) =
        e ∙ ap (◌++◌ front) (append_assoc bytes (questions_bytes questions) rest) in
      let at_next : packet ≡ (front ++ bytes) ++ (questions_bytes questions ++ rest) =
        at_first ∙ sym (append_assoc front bytes _) in
      let next =
        parse_section-questions_bytes (front ++ bytes) rest questions (output ++ question ∷ []) q.1
          at_next in
      rw
        (
          parse_question-question_bytes front _ question q.0 at_first,
          sym (length-append front bytes),
          next,
        )
        (ground (
          arith,
          append_assoc output (question ∷ []) questions,
          length-append front bytes,
          length-append bytes (questions_bytes questions),
        ))
