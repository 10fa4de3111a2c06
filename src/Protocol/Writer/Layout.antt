-- ===== src/Protocol/Writer/Layout.antt =====
-- What the writers append, as one string of bytes: a message is written whole or not at all.
use dns_pro.Base.{
  ℕ, ◌+◌, ◌%◌, ◌^◌, ◌≤◌, ◌≡◌, refl, ap, ◌∙◌, inl, inr, Option, some, List, [], ◌∷◌, ◌++◌,
  append-nil, arith, ltb, leb, if◌then◌else◌, leb→le, Bool-cases, Option-cases, length,
  length-append, ok, err, ◌>>=◌, refuse_if, or_fail, bind-eq-ok,
}
use dns_pro.Protocol.Wire.{
  Bytes, Writer, new_writer, push, u16_bytes, u32_bytes, write_u8, write_u16, write_u32,
  write_bytes,
}
use dns_pro.Protocol.Wire.Writes.{
  ◌>>=◌ as then_write, write_bytes_lem, write_bytes-append, write_u8-bytes, write_u16-bytes,
  write_u32-bytes,
}
use dns_pro.Protocol.Message.{Header, Question}
use dns_pro.Protocol.Writer.{
  message_too_large, invalid_maximum_size, too_many_questions, write_labels, write_name,
  write_words, write_question, write_questions, write_question_message, encode_flags, write_answer,
  write_answers,
}

abbrev pub labels_bytes : List Bytes → Bytes
labels_bytes [] = []
labels_bytes (label ∷ labels) = (length label % 256 ∷ []) ++ label ++ labels_bytes labels

abbrev pub name_bytes : List Bytes → Bytes
name_bytes labels = labels_bytes labels ++ (0 ∷ [])

abbrev pub words_bytes : List ℕ → Bytes
words_bytes [] = []
words_bytes (value ∷ values) = u16_bytes value ++ words_bytes values

abbrev pub question_bytes : Question → Bytes
question_bytes question =
    name_bytes question.name.labels ++ words_bytes (question.qtype ∷ question.question_class ∷ [])

abbrev pub questions_bytes : List Question → Bytes
questions_bytes [] = []
questions_bytes (question ∷ questions) = question_bytes question ++ questions_bytes questions

-- A writer that appends these bytes when they fit and fails otherwise.
record Appends (write : Writer → Option Writer) (bytes : Bytes) : Type 0 where
  law : (w : Writer) → length w.bytes ≤ w.maximum_size → write w ≡ write_bytes w bytes

Appends-none : Appends (λ w. some w) []
Appends-none = record { law = λ w h. ground (arith, write_bytes_lem w [], append-nil w.bytes) }

-- After a successful write the bytes still fit.
write_bytes-then :
    (g h : Writer → Option Writer) (w : Writer) (xs : Bytes)
    → ((w' : Writer) → length w'.bytes ≤ w'.maximum_size → g w' ≡ h w')
    → then_write (write_bytes w xs) g ≡ then_write (write_bytes w xs) h
write_bytes-then g h w xs same =
    elim (Bool-cases (leb (length w.bytes + length xs) w.maximum_size)) [
      | inl fits ↦
          rw (write_bytes_lem w xs, fits)
            (same (push w xs) (omega (arith, length-append w.bytes xs, leb→le _ _ fits)))
      | inr large ↦ rw (write_bytes_lem w xs, large) refl
    ]

Appends-then :
    (f g : Writer → Option Writer) (xs ys : Bytes)
    → Appends f xs
    → Appends g ys
    → Appends (λ w. then_write (f w) g) (xs ++ ys)
Appends-then f g xs ys F G = record {
  law = λ w h.
      ap (λ m. then_write m g) (F.law w h)
      ∙ write_bytes-then g (λ w'. write_bytes w' ys) w xs G.law
      ∙ write_bytes-append w xs ys;
}

Appends-u8 : (v : ℕ) → Appends (λ w. write_u8 w v) (v ∷ [])
Appends-u8 v = record { law = λ w h. write_u8-bytes w v }

Appends-u16 : (v : ℕ) → Appends (λ w. write_u16 w v) (u16_bytes v)
Appends-u16 v = record { law = λ w h. write_u16-bytes w v }

Appends-u32 : (v : ℕ) → Appends (λ w. write_u32 w v) (u32_bytes v)
Appends-u32 v = record { law = λ w h. write_u32-bytes w v }

Appends-bytes : (xs : Bytes) → Appends (λ w. write_bytes w xs) xs
Appends-bytes xs = record { law = λ w h. refl }

Appends-labels : (labels : List Bytes) → Appends (λ w. write_labels w labels) (labels_bytes labels)
unfolding write_labels
Appends-labels [] = Appends-none
Appends-labels (label ∷ labels) =
    Appends-then _ _ (length label % 256 ∷ []) (label ++ labels_bytes labels)
      (Appends-u8 (length label % 256))
      (Appends-then _ _ label (labels_bytes labels) (Appends-bytes label) (Appends-labels labels))

Appends-words : (values : List ℕ) → Appends (λ w. write_words w values) (words_bytes values)
unfolding write_words
Appends-words [] = Appends-none
Appends-words (value ∷ values) =
    Appends-then _ _ (u16_bytes value) (words_bytes values) (Appends-u16 value)
      (Appends-words values)

Appends-question :
    (question : Question) → Appends (λ w. write_question w question) (question_bytes question)
unfolding write_question write_name
Appends-question question =
    Appends-then _ _ (name_bytes question.name.labels) _
      (Appends-then _ _ (labels_bytes question.name.labels) (0 ∷ [])
        (Appends-labels question.name.labels) (Appends-u8 0))
      (Appends-words (question.qtype ∷ question.question_class ∷ []))

Appends-questions :
    (questions : List Question)
    → Appends (λ w. write_questions w questions) (questions_bytes questions)
unfolding write_questions
Appends-questions [] = Appends-none
Appends-questions (question ∷ questions) =
    Appends-then _ _ (question_bytes question) (questions_bytes questions)
      (Appends-question question) (Appends-questions questions)

abbrev pub answer_bytes : Question → ℕ → Bytes → Bytes
answer_bytes question ttl answer =
    words_bytes (0xc00c ∷ question.qtype ∷ question.question_class ∷ [])
    ++ u32_bytes ttl
    ++ u16_bytes (length answer % 2 ^ 16)
    ++ answer

abbrev pub answers_bytes : Question → ℕ → List Bytes → Bytes
answers_bytes question ttl [] = []
answers_bytes question ttl (answer ∷ answers) =
    answer_bytes question ttl answer ++ answers_bytes question ttl answers

Appends-answers :
    (question : Question) (ttl : ℕ) (answers : List Bytes)
    → Appends (λ w. write_answers w question ttl answers) (answers_bytes question ttl answers)
unfolding write_answers write_answer
Appends-answers question ttl [] = Appends-none
Appends-answers question ttl (answer ∷ answers) =
    Appends-then _ _ (answer_bytes question ttl answer) (answers_bytes question ttl answers)
      (Appends-then _ _ (words_bytes (0xc00c ∷ question.qtype ∷ question.question_class ∷ [])) _
        (Appends-words (0xc00c ∷ question.qtype ∷ question.question_class ∷ []))
        (Appends-then _ _ (u32_bytes ttl) _ (Appends-u32 ttl) (
          Appends-then _ _ (u16_bytes (length answer % 2 ^ 16)) answer
            (Appends-u16 (length answer % 2 ^ 16)) (Appends-bytes answer))))
      (Appends-answers question ttl answers)

-- The six words in front of the questions.
abbrev pub header_words : ℕ → ℕ → ℕ → ℕ → List ℕ
header_words id flags questions answers =
    id ∷ flags ∷ (questions % 2 ^ 16) ∷ (answers % 2 ^ 16) ∷ 0 ∷ 0 ∷ []

abbrev pub question_message_bytes : Header → ℕ → List Question → Bytes
question_message_bytes header flags questions =
    words_bytes (header_words header.id flags (length questions) 0) ++ questions_bytes questions

or_fail-then :
    (f g : Writer → Option Writer) (w : Writer)
    → (or_fail (f w) message_too_large >>= λ w1.
        or_fail (g w1) message_too_large >>= λ w2. ok w2.bytes)
      ≡ (or_fail (then_write (f w) g) message_too_large >>= λ w2. ok w2.bytes)
or_fail-then f g w = elim (Option-cases (f w)) [
  | inl failed ↦ rw failed refl
  | inr (w1, wrote) ↦ rw wrote refl
]

-- Within its limits, and with a header that can be encoded, a message of questions is the layout
-- above, all of it, if that fits the maximum size; otherwise the error is MessageTooLarge.
pub write_question_message_lem :
    (header : Header) (questions : List Question) (maximum_size flags : ℕ)
    → maximum_size ≤ 65535
    → length questions ≤ 65535
    → encode_flags header ≡ ok flags
    → write_question_message header questions maximum_size ≡ (
        let bytes = question_message_bytes header flags questions in
        if leb (length bytes) maximum_size then ok bytes else err message_too_large)
unfolding write_question_message
write_question_message_lem header questions maximum_size flags hm hq encoded =
    let bytes = question_message_bytes header flags questions in
    let whole =
      Appends-then (λ w. write_words w (header_words header.id flags (length questions) 0))
        (λ w. write_questions w questions)
        (words_bytes (header_words header.id flags (length questions) 0))
        (questions_bytes questions)
        (Appends-words (header_words header.id flags (length questions) 0))
        (Appends-questions questions) in
    ground (
      arith,
      or_fail-then (λ w. write_words w (header_words header.id flags (length questions) 0))
          (λ w. write_questions w questions) (new_writer maximum_size),
      whole.law (new_writer maximum_size) (omega arith),
      write_bytes_lem (new_writer maximum_size) bytes,
    )

-- What a written message is.
pub record IsWritten (header : Header) (questions : List Question) (maximum_size : ℕ)
    (bytes : Bytes) : Type 0 where
  pub flags : ℕ
  pub encoded : encode_flags header ≡ ok flags
  pub size_allowed : maximum_size ≤ 65535
  pub count_fits : length questions ≤ 65535
  pub is_layout : bytes ≡ question_message_bytes header flags questions
  pub fits : length bytes ≤ maximum_size

written_flags :
    (header : Header) (questions : List Question) (maximum_size : ℕ) (bytes : Bytes)
    → write_question_message header questions maximum_size ≡ ok bytes
    → (flags : ℕ) × (encode_flags header ≡ ok flags)
      × (maximum_size ≤ 65535)
      × (length questions ≤ 65535)
unfolding write_question_message
written_flags header questions maximum_size bytes e =
    let (_, size_allowed, e1) =
      bind-eq-ok (refuse_if (ltb 65535 maximum_size) invalid_maximum_size) _ e in
    let (_, count_fits, e2) =
      bind-eq-ok (refuse_if (ltb 65535 (length questions)) too_many_questions) _ e1 in
    let (flags, encoded, _) = bind-eq-ok (encode_flags header) _ e2 in
    (flags, encoded, ground (arith, size_allowed), ground (arith, count_fits))

pub write_question_message-IsWritten :
    (header : Header) (questions : List Question) (maximum_size : ℕ) (bytes : Bytes)
    → write_question_message header questions maximum_size ≡ ok bytes
    → IsWritten header questions maximum_size bytes
write_question_message-IsWritten header questions maximum_size bytes e =
    let (flags, encoded, small, few) = written_flags header questions maximum_size bytes e in
    let whole = write_question_message_lem header questions maximum_size flags small few encoded in
    record {
      flags = flags;
      encoded = encoded;
      size_allowed = small;
      count_fits = few;
      is_layout = ground (arith, whole);
      fits = ground (arith, whole);
    }
