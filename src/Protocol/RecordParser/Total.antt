-- ===== src/Protocol/RecordParser/Total.antt =====
-- Questions, records and sections: no read leaves the packet, every loop ends, and a record that is
-- returned has a well-formed name and the packet's own bytes as its data.
use dns_pro.Base.{
  ℕ, zero, suc, ◌+◌, ◌-◌, ◌≤◌, ◌<◌, ◌≡◌, ap, ◌∙◌, inl, inr, Bool, not, List, [], ◌∷◌, ◌++◌, arith,
  ◌==◌, Option-cases, length, get_elem?, take, drop, All, length-append, All-append, Outcome, ok,
  err, out_of_bounds, out_of_fuel, Returns, Returns-bind, Ensures, Ensures-bind, Ensures-mono,
}
use dns_pro.Protocol.Wire.{Bytes, Reader, start_at, read_u16, read_u32, read_bytes}
use dns_pro.Protocol.Wire.Reads.{get_elem?-lt, read_u16-Moved, read_u32-Moved, read_bytes-Moved}
use dns_pro.Protocol.DomainName.Valid.{IsDomain}
use dns_pro.Protocol.Message.{ParseError, ParseLimits, ResourceRecord, RecordType, type_value}
use dns_pro.Protocol.NameDecoder.{decode_name}
use dns_pro.Protocol.NameDecoder.Total.{decode_name-IsDomain, decode_name-Returns}
use dns_pro.Protocol.RecordParser.{
  or_end, parse_question, validate_single_name, strings_loop, validate_strings, validate_size,
  validate_mx, validate_soa, validate_minfo, validate_rdata, parse_resource_record, parse_section,
}

or_end-Ensures {ℓ} :
    {A : Type ℓ} (P : A → Type 0) (m : Outcome Reader A) → Ensures P m → Ensures P (or_end m)
or_end-Ensures P (ok a) h = h
or_end-Ensures P (err r) h = tt
or_end-Ensures P out_of_bounds h = h
or_end-Ensures P out_of_fuel h = h

-- A reader over the packet, not behind its end.
abbrev pub Over : Bytes → Reader → Type 0
Over packet r = (r.bytes ≡ packet) × (r.offset ≤ length packet)

module _ (packet : Bytes) where
  pub first_u16 :
      (offset : ℕ)
      → Ensures (λ result. Over packet result.1) (or_end (read_u16 (start_at packet offset)))
  first_u16 offset = or_end-Ensures _ (read_u16 (start_at packet offset)) (
      Ensures-mono _ _ (read_u16 (start_at packet offset)) (read_u16-Moved (start_at packet offset))
        (λ result h. (h.same_bytes, h.inside)))

  pub next_u16 :
      (r : Reader) → Over packet r → Ensures (λ result. Over packet result.1) (or_end (read_u16 r))
  next_u16 r over = or_end-Ensures _ (read_u16 r) (
      Ensures-mono _ _ (read_u16 r) (read_u16-Moved r)
        (λ result h. (h.same_bytes ∙ over.0, rw (over.0) at (h.inside))))

  next_u32 :
      (r : Reader) → Over packet r → Ensures (λ result. Over packet result.1) (or_end (read_u32 r))
  next_u32 r over = or_end-Ensures _ (read_u32 r) (
      Ensures-mono _ _ (read_u32 r) (read_u32-Moved r)
        (λ result h. (h.same_bytes ∙ over.0, rw (over.0) at (h.inside))))

module _ (packet : Bytes) (limits : ParseLimits) where
  pub parse_question-IsDomain :
      (offset : ℕ)
      → Ensures (λ result. IsDomain result.0.name) (parse_question packet limits offset)
  unfolding parse_question
  parse_question-IsDomain offset =
      Ensures-bind (λ decoded. IsDomain decoded.name) _ _ _
        (decode_name-IsDomain packet offset (length packet) limits)
        λ decoded named_well.
          Ensures-bind (λ result. Over packet result.1) _ _ _ (first_u16 packet decoded.next_offset)
            λ t over.
              Ensures-bind (λ result. Over packet result.1) _ _ _ (next_u16 packet t.1 over)
                λ c over'. named_well

-- What the switch demands of address records.
abbrev pub SizeFits : ℕ → ℕ → Type 0
SizeFits rtype size =
    (rtype ≡ type_value RecordType.a → size ≡ 4) × (rtype ≡ type_value RecordType.aaaa → size ≡ 16)

strings_loop-Returns :
    (packet : Bytes) (rdata_end fuel cursor count : ℕ)
    → rdata_end ≤ length packet
    → rdata_end - cursor < fuel
    → Returns (strings_loop fuel packet rdata_end cursor count)
unfolding strings_loop
strings_loop-Returns packet rdata_end zero cursor count h k = absurd (omega arith)
strings_loop-Returns packet rdata_end (suc fuel) cursor count h k =
    elim (Option-cases (get_elem? packet cursor)) [
      | inl missing ↦ ground (arith, missing, get_elem?-lt packet cursor)
      | inr (size, found) ↦
          ground (
            arith,
            found,
            strings_loop-Returns packet rdata_end fuel (cursor + 1 + size) (count + 1),
          )
    ]

validate_strings-Returns :
    (enough : ℕ → Bool) (packet : Bytes) (item : ResourceRecord) (rdata_end : ℕ)
    → rdata_end ≤ length packet
    → Returns (validate_strings enough packet item rdata_end)
unfolding validate_strings
validate_strings-Returns enough packet item rdata_end h =
    Returns-bind
      (strings_loop (rdata_end - item.rdata_offset + 1) packet rdata_end item.rdata_offset 0) _
      (strings_loop-Returns packet rdata_end _ item.rdata_offset 0 h (omega arith))
      (λ scanned _. ground arith)

module _ (packet : Bytes) (limits : ParseLimits) where
  validate_single_name-Returns :
      (name_offset required_end : ℕ)
      → Returns (validate_single_name packet limits name_offset required_end)
  unfolding validate_single_name
  validate_single_name-Returns name_offset required_end =
      Returns-bind (decode_name packet name_offset required_end limits) _
        (decode_name-Returns packet name_offset required_end limits) (λ decoded _. ground arith)

  validate_mx-Returns :
      (size : ℕ) (item : ResourceRecord) (rdata_end : ℕ)
      → Returns (validate_mx packet limits size item rdata_end)
  unfolding validate_mx
  validate_mx-Returns size item rdata_end =
      ground (arith, validate_single_name-Returns (item.rdata_offset + 2) rdata_end)

  validate_soa-Returns :
      (item : ResourceRecord) (rdata_end : ℕ) → Returns (validate_soa packet limits item rdata_end)
  unfolding validate_soa
  validate_soa-Returns item rdata_end =
      Returns-bind (decode_name packet item.rdata_offset rdata_end limits) _
        (decode_name-Returns packet item.rdata_offset rdata_end limits)
        λ primary _.
          Returns-bind (decode_name packet primary.next_offset rdata_end limits) _
            (decode_name-Returns packet primary.next_offset rdata_end limits)
            λ mailbox _. ground arith

  validate_minfo-Returns :
      (item : ResourceRecord) (rdata_end : ℕ)
      → Returns (validate_minfo packet limits item rdata_end)
  unfolding validate_minfo
  validate_minfo-Returns item rdata_end =
      Returns-bind (decode_name packet item.rdata_offset rdata_end limits) _
        (decode_name-Returns packet item.rdata_offset rdata_end limits)
        λ responsible _. validate_single_name-Returns responsible.next_offset rdata_end

  validate_rdata-SizeFits :
      (size : ℕ) (item : ResourceRecord) (rdata_end : ℕ)
      → rdata_end ≤ length packet
      → Ensures (λ _. SizeFits item.rtype size) (validate_rdata packet limits size item rdata_end)
  unfolding validate_rdata validate_size
  validate_rdata-SizeFits size item rdata_end h = ground (
    arith,
    validate_single_name-Returns item.rdata_offset rdata_end,
    validate_mx-Returns size item rdata_end,
    validate_soa-Returns item rdata_end,
    validate_minfo-Returns item rdata_end,
    validate_strings-Returns (λ (count : ℕ). count == 2) packet item rdata_end h,
    validate_strings-Returns (λ (count : ℕ). not (count == 0)) packet item rdata_end h,
  )

-- A record that the parser may return: its name is well formed, its data is the packet's slice at
-- `rdata_offset`, and an address record has an address of its size.
pub record IsRecord (packet : Bytes) (item : ResourceRecord) : Type 0 where
  pub well_named : IsDomain item.name
  pub slice : item.rdata ≡ take (length item.rdata) (drop item.rdata_offset packet)
  pub inside : item.rdata_offset + length item.rdata ≤ length packet
  pub sized : SizeFits item.rtype (length item.rdata)

module _ (packet : Bytes) (limits : ParseLimits) where
  next_bytes :
      (r : Reader) (size : ℕ)
      → Over packet r
      → Ensures
          (λ result.
            (r.offset + length result.0 ≤ length packet)
            × (result.1.offset ≤ length packet)
            × (length result.0 ≡ size)
            × (result.0 ≡ take (length result.0) (drop r.offset packet)))
          (or_end (read_bytes r size))
  next_bytes r size over = or_end-Ensures _ (read_bytes r size) (
      Ensures-mono _ _ (read_bytes r size) (read_bytes-Moved r size (rw (over.0) (over.1)))
        (λ result h. (
          omega (arith, h.0.inside, h.0.moved, ap length over.0, h.2),
          omega (arith, h.0.inside, ap length over.0),
          h.2,
          cc (h.1, h.2, over.0),
        )))

  pub parse_resource_record-IsRecord :
      (offset : ℕ)
      → Ensures (λ result. IsRecord packet result.0) (parse_resource_record packet limits offset)
  unfolding parse_resource_record
  parse_resource_record-IsRecord offset =
      Ensures-bind (λ decoded. IsDomain decoded.name) _ _ _
        (decode_name-IsDomain packet offset (length packet) limits)
        λ decoded named_well.
          Ensures-bind (λ (result : ℕ × Reader). Over packet result.1) _ _ _
            (first_u16 packet decoded.next_offset)
            λ t o1.
              Ensures-bind (λ (result : ℕ × Reader). Over packet result.1) _ _ _
                (next_u16 packet t.1 o1)
                λ c o2.
                  Ensures-bind (λ (result : ℕ × Reader). Over packet result.1) _ _ _
                    (next_u32 packet c.1 o2)
                    λ l o3.
                      Ensures-bind (λ (result : ℕ × Reader). Over packet result.1) _ _ _
                        (next_u16 packet l.1 o3)
                        λ n o4.
                          Ensures-bind
                            (λ (result : Bytes × Reader).
                              (n.1.offset + length result.0 ≤ length packet)
                              × (result.1.offset ≤ length packet)
                              × (length result.0 ≡ n.0)
                              × (result.0 ≡ take (length result.0) (drop n.1.offset packet)))
                            _ _ _ (next_bytes n.1 n.0 o4)
                            λ b slice.
                              Ensures-bind (λ _. SizeFits t.0 n.0) _ _ _
                                (validate_rdata-SizeFits packet limits n.0 _ b.1.offset (slice.1))
                                λ _ sized. record {
                                  well_named = named_well;
                                  slice = slice.3;
                                  inside = slice.0;
                                  sized = rw (slice.2) sized;
                                }

pub parse_section-All {ℓ} :
    {Item : Type ℓ} (P : Item → Type 0) (parser : ℕ → Outcome ParseError (Item × ℕ))
    → ((offset : ℕ) → Ensures (λ result. P result.0) (parser offset))
    → (count : ℕ) (output : List Item) (offset : ℕ) → All P output
    → Ensures
        (λ result. All P result.0 × (length result.0 ≡ length output + count))
        (parse_section count parser output offset)
unfolding parse_section
parse_section-All P parser h zero output offset all = (all, omega arith)
parse_section-All P parser h (suc count) output offset all =
    Ensures-bind (λ result. P result.0) _ _ _ (h offset)
      λ item p.
        Ensures-mono _ _ (parse_section count parser (output ++ item.0 ∷ []) item.1)
          (parse_section-All P parser h count (output ++ item.0 ∷ []) item.1
            (All-append P output (item.0 ∷ []) all (p, tt)))
          (λ result r. (r.0, omega (arith, r.1, length-append output (item.0 ∷ []))))
