-- ===== src/Protocol/Parser/Total.antt =====
-- parse_message on every packet: it returns, and what it returns is well formed.
use dns_pro.Base.{
  ℕ, ◌+◌, ◌≤◌, ◌≡◌, refl, not, ◌&&◌, List, [], arith, ltb, ◌==◌, length, All, ok, Returns, Ensures,
  Ensures-bind, Ensures-refuse_if, Ensures-Returns, Ensures-ok,
}
use dns_pro.Protocol.Wire.{Bytes, Reader}
use dns_pro.Protocol.DomainName.Valid.{IsDomain}
use dns_pro.Protocol.Message.{Message, Question, ResourceRecord, ParseLimits}
use dns_pro.Protocol.RecordParser.{parse_question, parse_resource_record, parse_section}
use dns_pro.Protocol.RecordParser.Total.{
  Over, first_u16, next_u16, parse_question-IsDomain, parse_resource_record-IsRecord,
  parse_section-All, IsRecord,
}
use dns_pro.Protocol.Parser.{Counts, read_counts, check_counts, parse_body, assemble, parse_message}

-- A message that the parser may return for a packet.
pub record IsMessage (packet : Bytes) (limits : ParseLimits) (m : Message) : Type 0 where
  pub image : m.wire_image ≡ packet
  pub size : length packet ≤ limits.maximum_packet_size
  pub question_names : All (λ question. IsDomain question.name) m.questions
  pub question_count : length m.questions ≤ limits.maximum_questions
  pub answer_records : All (IsRecord packet) m.answers
  pub authority_records : All (IsRecord packet) m.authorities
  pub additional_records : All (IsRecord packet) m.additionals
  pub answer_count : length m.answers ≤ limits.maximum_records_per_section
  pub authority_count : length m.authorities ≤ limits.maximum_records_per_section
  pub additional_count : length m.additionals ≤ limits.maximum_records_per_section
  pub total :
      length m.answers + length m.authorities + length m.additionals ≤ limits.maximum_total_records

abbrev IsPart : Bytes → List ResourceRecord → ℕ → Type 0
IsPart packet records count = All (IsRecord packet) records × (length records ≡ 0 + count)

module _ (packet : Bytes) (limits : ParseLimits) where
  read_counts-Ensures : Ensures (λ _. Unit {0}) (read_counts packet)
  unfolding read_counts
  read_counts-Ensures =
      Ensures-bind (λ (result : ℕ × Reader). Over packet result.1) _ _ _ (first_u16 packet 0)
        λ a o1.
          Ensures-bind (λ (result : ℕ × Reader). Over packet result.1) _ _ _
            (next_u16 packet a.1 o1)
            λ b o2.
              Ensures-bind (λ (result : ℕ × Reader). Over packet result.1) _ _ _
                (next_u16 packet b.1 o2)
                λ c o3.
                  Ensures-bind (λ (result : ℕ × Reader). Over packet result.1) _ _ _
                    (next_u16 packet c.1 o3)
                    λ d o4.
                      Ensures-bind (λ (result : ℕ × Reader). Over packet result.1) _ _ _
                        (next_u16 packet d.1 o4)
                        λ e o5.
                          Ensures-bind (λ (result : ℕ × Reader). Over packet result.1) _ _ _
                            (next_u16 packet e.1 o5) λ f o6. tt

  section_records :
      (count offset : ℕ)
      → Ensures
          (λ (result : List ResourceRecord × ℕ). IsPart packet result.0 count)
          (parse_section count (parse_resource_record packet limits) [] offset)
  section_records count offset =
      parse_section-All (IsRecord packet) (parse_resource_record packet limits)
        (parse_resource_record-IsRecord packet limits) count [] offset tt

  abbrev Allowed : Counts → Type 0
  Allowed c =
      (c.question_count ≤ limits.maximum_questions)
      × (c.answer_count ≤ limits.maximum_records_per_section)
      × (c.authority_count ≤ limits.maximum_records_per_section)
      × (c.additional_count ≤ limits.maximum_records_per_section)
      × (c.answer_count + c.authority_count + c.additional_count ≤ limits.maximum_total_records)

  check_counts-Allowed : (c : Counts) → Ensures (λ _. Allowed c) (check_counts limits c)
  unfolding check_counts
  check_counts-Allowed c = ground arith

  parse_body-IsMessage :
      (c : Counts) (offset : ℕ)
      → length packet ≤ limits.maximum_packet_size
      → Allowed c
      → Ensures (IsMessage packet limits) (parse_body packet limits c offset)
  unfolding parse_body
  parse_body-IsMessage c offset small allowed =
      Ensures-bind
        (λ (result : List Question × ℕ).
          All (λ question. IsDomain question.name) result.0
          × (length result.0 ≡ 0 + c.question_count))
        _ _ _
        (parse_section-All (λ question. IsDomain question.name) (parse_question packet limits)
          (parse_question-IsDomain packet limits) c.question_count [] offset tt)
        λ q hq.
          Ensures-bind (λ (result : List ResourceRecord × ℕ). IsPart packet result.0 c.answer_count)
            _ _ _ (section_records c.answer_count q.1)
            λ an han.
              Ensures-bind
                (λ (result : List ResourceRecord × ℕ). IsPart packet result.0 c.authority_count) _ _
                _ (section_records c.authority_count an.1)
                λ au hau.
                  Ensures-bind
                    (λ (result : List ResourceRecord × ℕ).
                      IsPart packet result.0 c.additional_count)
                    _ _ _ (section_records c.additional_count au.1)
                    λ ad had.
                      Ensures-refuse_if (IsMessage packet limits)
                        (limits.reject_trailing_data && not (ad.1 == length packet)) _
                        (ok (assemble packet c q.0 an.0 au.0 ad.0))
                        λ _. record {
                          image = refl;
                          size = small;
                          question_names = hq.0;
                          question_count = omega (arith, hq.1, allowed);
                          answer_records = han.0;
                          authority_records = hau.0;
                          additional_records = had.0;
                          answer_count = omega (arith, han.1, allowed);
                          authority_count = omega (arith, hau.1, allowed);
                          additional_count = omega (arith, had.1, allowed);
                          total = omega (arith, han.1, hau.1, had.1, allowed);
                        }

  parse_message-Ensures : Ensures (IsMessage packet limits) (parse_message packet limits)
  unfolding parse_message
  parse_message-Ensures =
      Ensures-refuse_if (IsMessage packet limits) (ltb limits.maximum_packet_size (length packet)) _
        _
        λ small.
          Ensures-bind (λ _. Unit {0}) _ _ _ read_counts-Ensures
            λ counts _.
              Ensures-bind (λ _. Allowed counts.0) _ _ _ (check_counts-Allowed counts.0)
                λ _ allowed. parse_body-IsMessage counts.0 counts.1 (ground (arith, small)) allowed

-- On every packet and under any limits `parse_message` returns, with a message or a parse error: no
-- loop runs on, and no byte outside of the packet is read.
pub parse_message-Returns :
    (packet : Bytes) (limits : ParseLimits) → Returns (parse_message packet limits)
parse_message-Returns packet limits =
    Ensures-Returns (IsMessage packet limits) (parse_message packet limits)
      (parse_message-Ensures packet limits)

-- A message that `parse_message` returns is within the limits on its size, its questions, the
-- records of each section and all records, all its names are well formed, the
-- data of each record is the packet's slice at `rdata_offset`, which lies inside of the packet, and
-- an A or AAAA record has 4 or 16 bytes of data.
pub parse_message-IsMessage :
    (packet : Bytes) (limits : ParseLimits) (m : Message)
    → parse_message packet limits ≡ ok m
    → IsMessage packet limits m
parse_message-IsMessage packet limits m e =
    Ensures-ok (IsMessage packet limits) (parse_message packet limits) m
      (parse_message-Ensures packet limits) e
