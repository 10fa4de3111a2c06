-- ===== src/Protocol/NameDecoder/RoundTrip.antt =====
-- A name that the writer lays out, without compression, is decoded to the same name.
use dns_pro.Base.{
  ℕ, zero, suc, ◌+◌, ◌-◌, ◌%◌, ◌≤◌, ◌<◌, ◌≡◌, refl, sym, ap, ap₂, ◌∙◌, false, some, List, [], ◌∷◌,
  ◌++◌, append-nil, append_assoc, arith, length, get_elem?, take, drop, All, length-append, ok,
}
use dns_pro.Base.Bits.{label_marks}
use dns_pro.Protocol.Wire.{Bytes}
use dns_pro.Protocol.Wire.RoundTrip.{get_elem?-at, slice-at}
use dns_pro.Protocol.DomainName.{max_domain_wire_size, max_label_size}
use dns_pro.Protocol.DomainName.Valid.{
  FitsWire, IsLabel, wire_length, wire_length_pos, named, from_labels-named,
}
use dns_pro.Protocol.Message.{ParseLimits}
use dns_pro.Protocol.Writer.Layout.{labels_bytes, name_bytes}
use dns_pro.Protocol.NameDecoder.{
  Scan, breaks, continues, first_scan, label_round, dispatch_byte, decode_round, decode_loop,
  decode_fuel, decode_name,
}

-- What the scan is after an uncompressed label, and after the end of the name.
abbrev after_label : Bytes → Scan → Scan
after_label label s = record s {
  labels = s.labels ++ label ∷ [];
  expanded_wire_size = s.expanded_wire_size + (length label + 1);
  position = s.position + 1 + length label;
  next_offset = s.position + 1 + length label;
}

module _ (packet : Bytes) (encoded_end : ℕ) (limits : ParseLimits) (s : Scan) where
  label_round-after_label :
      (label : Bytes)
      → length label ≤ max_label_size
      → s.followed_pointer ≡ false
      → s.position + 1 + length label ≤ length packet
      → s.position + 1 + length label ≤ encoded_end
      → s.expanded_wire_size + length label + 1 ≤ max_domain_wire_size
      → take (length label) (drop (s.position + 1) packet) ≡ label
      → label_round packet encoded_end (length label) s ≡ ok (continues (after_label label s))
  unfolding label_round
  label_round-after_label label hl hf hp he hx ht = ground arith

  dispatch_byte-label :
      (size : ℕ)
      → 0 < size
      → size ≤ max_label_size
      → dispatch_byte packet encoded_end limits size s ≡ label_round packet encoded_end size s
  unfolding dispatch_byte
  dispatch_byte-label size pos small = ground (arith, label_marks size)

  decode_round-byte :
      (byte : ℕ)
      → get_elem? packet s.position ≡ some byte
      → s.position < length packet
      → s.followed_pointer ≡ false
      → s.position < encoded_end
      → decode_round packet encoded_end limits s ≡ dispatch_byte packet encoded_end limits byte s
  unfolding decode_round
  decode_round-byte byte found inside hf before = ground arith

  decode_round-label :
      (front label rest : Bytes)
      → packet ≡ front ++ (length label ∷ (label ++ rest))
      → IsLabel label
      → s.position ≡ length front
      → s.followed_pointer ≡ false
      → s.position + 1 + length label ≤ encoded_end
      → s.expanded_wire_size + length label + 1 ≤ max_domain_wire_size
      → decode_round packet encoded_end limits s ≡ ok (continues (after_label label s))
  decode_round-label front label rest e hl hp hf he hx =
      let total =
        let x : length packet ≡ length front + (1 + (length label + length rest)) = omega (
          arith,
          ap length e,
          length-append front (length label ∷ (label ++ rest)),
          length-append label rest,
        ) in
        x in
      decode_round-byte (length label)
        (get_elem?-at packet front (length label) s.position hp (label ++ rest) e)
        (omega (arith, total)) hf (omega arith)
      ∙ dispatch_byte-label (length label) hl.0 hl.1
      ∙ label_round-after_label label hl.1 hf (omega (arith, total)) he hx
          (slice-at packet front (length label) s.position hp label rest e)

-- The scan at the end of the labels.
abbrev after_labels : List Bytes → Scan → Scan
after_labels labels s = record s {
  labels = s.labels ++ labels;
  expanded_wire_size = s.expanded_wire_size + (wire_length labels - 1);
  position = s.position + (wire_length labels - 1);
  next_offset = s.position + wire_length labels;
}

labels_bytes-cons :
    (label : Bytes) (labels : List Bytes) (rest : Bytes)
    → length label ≤ max_label_size
    → labels_bytes (label ∷ labels) ++ rest
      ≡ length label ∷ (label ++ (labels_bytes labels ++ rest))
labels_bytes-cons label labels rest h =
    ap₂ ◌∷◌ (let e : length label % 256 ≡ length label = omega arith in e)
      (append_assoc label (labels_bytes labels) rest)

after_labels-cons :
    (label : Bytes) (labels : List Bytes) (s : Scan)
    → after_labels labels (after_label label s) ≡ after_labels (label ∷ labels) s
after_labels-cons label labels s =
    ground (arith, append_assoc s.labels (label ∷ []) labels, wire_length_pos labels)

module _ (packet : Bytes) (encoded_end : ℕ) (limits : ParseLimits) where
  decode_round-end :
      (s : Scan) (front rest : Bytes)
      → packet ≡ front ++ (0 ∷ rest)
      → s.position ≡ length front
      → s.followed_pointer ≡ false
      → s.position < encoded_end
      → decode_round packet encoded_end limits s ≡ ok (breaks (after_labels [] s))
  decode_round-end s front rest e hp hf he =
      decode_round-byte packet encoded_end limits s 0
        (get_elem?-at packet front 0 s.position hp rest e)
        (omega (arith, ap length e, length-append front (0 ∷ rest))) hf he
      ∙ unfold dispatch_byte in ground (arith, append-nil s.labels)

  decode_loop-labels :
      (labels : List Bytes) (fuel : ℕ) (s : Scan) (front rest : Bytes)
      → packet ≡ front ++ (labels_bytes labels ++ (0 ∷ rest))
      → All IsLabel labels
      → s.position ≡ length front
      → s.followed_pointer ≡ false
      → s.position + wire_length labels ≤ encoded_end
      → s.expanded_wire_size + (wire_length labels - 1) ≤ max_domain_wire_size
      → wire_length labels ≤ fuel
      → decode_loop fuel packet encoded_end limits s ≡ ok (after_labels labels s)
  unfolding decode_loop
  decode_loop-labels labels zero s front rest e hl hp hf he hx enough =
      absurd (omega (arith, wire_length_pos labels))
  decode_loop-labels [] (suc fuel) s front rest e hl hp hf he hx enough =
      rw (decode_round-end s front rest e hp hf (omega arith))
  decode_loop-labels (label ∷ labels) (suc fuel) s front rest e hl hp hf he hx enough =
      let pos = wire_length_pos labels in
      let at_label = e ∙ ap (◌++◌ front) (labels_bytes-cons label labels (0 ∷ rest) hl.0.1) in
      let behind : packet
          ≡ (front ++ (length label ∷ label)) ++ (labels_bytes labels ++ (0 ∷ rest)) =
        at_label ∙ sym (append_assoc front (length label ∷ label) _) in
      rw
        (decode_round-label packet encoded_end limits s front label
          (labels_bytes labels ++ (0 ∷ rest)) at_label hl.0 hp hf (omega (arith, pos))
          (omega (arith, pos)))
        (decode_loop-labels labels fuel (after_label label s) (front ++ (length label ∷ label)) rest
            behind hl.1 (omega (arith, length-append front (length label ∷ label))) hf (omega arith)
            (omega (arith, pos)) (omega arith)
          ∙ ap ok (after_labels-cons label labels s))

-- A name in wire format, uncompressed and at any place of a packet, is decoded to that name, and
-- the offset behind it is returned.
pub decode_name-name_bytes :
    (front rest : Bytes) (labels : List Bytes) (encoded_end : ℕ) (limits : ParseLimits)
    → FitsWire labels
    → length front + wire_length labels ≤ encoded_end
    → decode_name (front ++ (name_bytes labels ++ rest)) (length front) encoded_end limits
      ≡ ok (record { name = named labels; next_offset = length front + wire_length labels })
unfolding decode_name
decode_name-name_bytes front rest labels encoded_end limits fits he =
    rw
      (decode_loop-labels _ encoded_end limits labels (decode_fuel limits)
        (first_scan (length front)) front rest
        (ap (◌++◌ front) (append_assoc (labels_bytes labels) (0 ∷ []) rest)) fits.each refl refl he
        (omega (arith, fits.total, wire_length_pos labels)) (omega (arith, fits.total)))
      (rw (from_labels-named labels fits))

pub decode_name-at :
    (packet front rest : Bytes) (labels : List Bytes) (encoded_end : ℕ) (limits : ParseLimits)
    → FitsWire labels
    → length front + wire_length labels ≤ encoded_end
    → packet ≡ front ++ (name_bytes labels ++ rest)
    → decode_name packet (length front) encoded_end limits
      ≡ ok (record { name = named labels; next_offset = length front + wire_length labels })
decode_name-at packet front rest labels encoded_end limits fits he e =
    rw e (decode_name-name_bytes front rest labels encoded_end limits fits he)
