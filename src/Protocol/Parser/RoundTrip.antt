-- ===== src/Protocol/Parser/RoundTrip.antt =====
-- A query that serialize_query writes is parsed back to its header and its questions.
use dns_pro.Base.{
  ℕ, ◌%◌, ◌^◌, ◌≤◌, ◌<◌, ◌≡◌, refl, sym, ap, ◌∙◌, List, [], ◌∷◌, ◌++◌, append-nil, arith, length,
  take, All, length-append, ok, refuse_if, bind-eq-ok,
}
use dns_pro.Protocol.Wire.{Bytes}
use dns_pro.Protocol.Wire.RoundTrip.{read_u16-at}
use dns_pro.Protocol.Message.{Header, Question, Message, ParseLimits}
use dns_pro.Protocol.RecordParser.{parse_question, parse_section}
use dns_pro.Protocol.RecordParser.RoundTrip.{IsQuestion, parse_section-questions_bytes}
use dns_pro.Protocol.Parser.{read_counts, check_counts, parse_body, parse_message}
use dns_pro.Protocol.Writer.{expected_query, query_header, encode_flags, serialize_query}
use dns_pro.Protocol.Writer.Flags.{decode_flags-encode_flags}
use dns_pro.Protocol.Writer.Layout.{
  words_bytes, header_words, questions_bytes, question_message_bytes,
  write_question_message-IsWritten,
}

read_counts-words :
    (packet rest : Bytes) (a b c d e f : ℕ)
    → All (λ v. v < 2 ^ 16) (a ∷ b ∷ c ∷ d ∷ e ∷ f ∷ [])
    → packet ≡ words_bytes (a ∷ b ∷ c ∷ d ∷ e ∷ f ∷ []) ++ rest
    → read_counts packet
      ≡ ok (
        record {
          id = a;
          flags = b;
          question_count = c;
          answer_count = d;
          authority_count = e;
          additional_count = f;
        },
        12,
      )
unfolding read_counts
read_counts-words packet rest a b c d e f fits eq =
    let front : ℕ → Bytes = λ k. take k (words_bytes (a ∷ b ∷ c ∷ d ∷ e ∷ f ∷ [])) in
    rw (
      read_u16-at packet (front 0) 0 refl a _ fits.0 eq,
      read_u16-at packet (front 2) 2 refl b _ fits.1.0 eq,
      read_u16-at packet (front 4) 4 refl c _ fits.1.1.0 eq,
      read_u16-at packet (front 6) 6 refl d _ fits.1.1.1.0 eq,
      read_u16-at packet (front 8) 8 refl e _ fits.1.1.1.1.0 eq,
      read_u16-at packet (front 10) 10 refl f _ fits.1.1.1.1.1.0 eq,
    )

abbrev pub message_of : Header → List Question → Bytes → Message
message_of header questions bytes = record {
  header = header;
  questions = questions;
  answers = [];
  authorities = [];
  additionals = [];
  wire_image = bytes;
}

module _ (limits : ParseLimits) (packet : Bytes) where
  check_counts_few :
      (id flags questions : ℕ)
      → questions ≤ limits.maximum_questions
      → check_counts limits (record {
        id = id;
        flags = flags;
        question_count = questions;
        answer_count = 0;
        authority_count = 0;
        additional_count = 0;
      })
        ≡ ok tt
  unfolding check_counts
  check_counts_few id flags questions few = ground arith

  parse_message-questions :
      (header : Header) (flags : ℕ) (questions : List Question)
      → encode_flags header ≡ ok flags
      → header.id < 2 ^ 16
      → length questions < 2 ^ 16
      → All IsQuestion questions
      → length questions ≤ limits.maximum_questions
      → length packet ≤ limits.maximum_packet_size
      → packet ≡ question_message_bytes header flags questions
      → parse_message packet limits ≡ ok (message_of header questions packet)
  unfolding parse_message parse_body parse_section
  parse_message-questions header flags questions encoded hid hq q few small e =
      let word = decode_flags-encode_flags header flags encoded in
      let n = length questions % 2 ^ 16 in
      let same = let x : n ≡ length questions = omega arith in x in
      let counts =
        read_counts-words packet (questions_bytes questions) header.id flags n 0 0 0
          (hid, (word.0, (omega arith, (omega arith, (omega arith, (omega arith, tt)))))) e in
      let front = words_bytes (header_words header.id flags (length questions) 0) in
      let body =
        parse_section-questions_bytes packet limits front [] questions [] q
          (e ∙ ap (◌++◌ front) (sym (append-nil (questions_bytes questions)))) in
      let sections =
        ap (λ (c : ℕ). parse_section c (parse_question packet limits) [] 12) same ∙ body in
      rw (counts, check_counts_few header.id flags n (omega (arith, same)), sections)
        (ground (arith, word.1, ap length e, length-append front (questions_bytes questions)))

-- Whatever query `serialize_query` writes, the parser reads back: the same questions, the header
-- with the response flags cleared, no records, and no byte left over. The questions must have
-- well-formed names and 16-bit fields, and the parser's limits must admit the packet.
pub parse_message-serialize_query :
    (header : Header) (questions : List Question) (maximum_size : ℕ) (limits : ParseLimits)
    (bytes : Bytes)
    → serialize_query header questions maximum_size ≡ ok bytes
    → header.id < 2 ^ 16
    → All IsQuestion questions
    → length questions ≤ limits.maximum_questions
    → length bytes ≤ limits.maximum_packet_size
    → parse_message bytes limits ≡ ok (message_of (query_header header) questions bytes)
unfolding serialize_query
parse_message-serialize_query header questions maximum_size limits bytes e hid q few small =
    let (_, _, written) = bind-eq-ok (refuse_if header.is_response expected_query) _ e in
    let w =
      write_question_message-IsWritten (query_header header) questions maximum_size bytes written in
    parse_message-questions limits bytes (query_header header) w.flags questions w.encoded hid
      (omega (arith, w.count_fits)) q few small w.is_layout
