-- ===== src/Protocol/NameDecoder/Total.antt =====
-- decode_name always returns: it ends within its fuel and reads only inside of the packet.
use dns_pro.Base.{
  ℕ, zero, suc, ◌+◌, ◌-◌, ◌*◌, ◌^◌, ◌≤◌, ◌<◌, bit_and, bit_or, ◌≡◌, ◌≢◌, inl, inr, List, [], ◌∷◌,
  arith, Option-cases, length, get_elem?, length-append, Outcome, ok, err, out_of_bounds,
  out_of_fuel, ◌>>=◌, Returns, Returns-bind, Ensures, Ensures-bind, Returns-Ensures,
}
use dns_pro.Protocol.Wire.{Bytes}
use dns_pro.Protocol.Wire.Reads.{get_elem?-lt}
use dns_pro.Protocol.DomainName.{
  DomainName, DomainNameError, max_domain_wire_size, check_labels, from_labels,
}
use dns_pro.Protocol.DomainName.Valid.{IsDomain, from_labels-IsDomain}
use dns_pro.Protocol.Message.{ParseError, ParseLimits}
use dns_pro.Protocol.NameDecoder.{
  Scan, Round, breaks, continues, first_scan, follow_pointer, pointer_round, label_round,
  dispatch_byte, decode_round, decode_loop, decode_fuel, decode_name, map_name_error,
}

check_labels-Returns :
    (index size : ℕ) (labels : List Bytes) → Returns (check_labels index size labels)
unfolding check_labels
check_labels-Returns index size [] = tt
check_labels-Returns index size (label ∷ labels) =
    ground (arith, check_labels-Returns (index + 1) (size + (length label + 1)) labels)

-- What is left for further labels and further pointers.
abbrev budget : ParseLimits → Scan → ℕ
budget limits s =
    (max_domain_wire_size - s.expanded_wire_size)
    + (limits.maximum_compression_pointers - length s.visited_pointers)

abbrev Shrinks : ParseLimits → Scan → Round → Type 0
Shrinks limits s (breaks s') = Unit {0}
Shrinks limits s (continues s') = budget limits s' < budget limits s

-- A round that returns a round.
abbrev Advances : ParseLimits → Scan → Outcome ParseError Round → Type 0
Advances limits s (ok round) = Shrinks limits s round
Advances limits s (err e) = Unit {0}
Advances limits s out_of_bounds = ⊥
Advances limits s out_of_fuel = ⊥

module _ (packet : Bytes) (encoded_end : ℕ) (limits : ParseLimits) where
  follow_pointer-Advances :
      (pointer : ℕ) (s : Scan) → Advances limits s (follow_pointer packet limits pointer s)
  unfolding follow_pointer
  follow_pointer-Advances pointer s =
      ground (arith, length-append s.visited_pointers (pointer ∷ []))

  pointer_round-Advances :
      (label_byte : ℕ) (s : Scan)
      → Advances limits s (pointer_round packet encoded_end limits label_byte s)
  unfolding pointer_round
  pointer_round-Advances label_byte s = elim (Option-cases (get_elem? packet (s.position + 1))) [
    | inl missing ↦ ground (arith, missing, get_elem?-lt packet (s.position + 1))
    | inr (low, found) ↦
        ground
          (arith, found, follow_pointer-Advances (bit_or (bit_and label_byte 0x3f * 2 ^ 8) low) s)
  ]

  label_round-Advances :
      (label_size : ℕ) (s : Scan)
      → label_size ≢ 0
      → Advances limits s (label_round packet encoded_end label_size s)
  unfolding label_round
  label_round-Advances label_size s h = ground arith

  dispatch_byte-Advances :
      (label_byte : ℕ) (s : Scan)
      → Advances limits s (dispatch_byte packet encoded_end limits label_byte s)
  unfolding dispatch_byte
  dispatch_byte-Advances label_byte s =
      ground (arith, pointer_round-Advances label_byte s, label_round-Advances label_byte s)

  decode_round-Advances : (s : Scan) → Advances limits s (decode_round packet encoded_end limits s)
  unfolding decode_round
  decode_round-Advances s = elim (Option-cases (get_elem? packet s.position)) [
    | inl missing ↦ ground (arith, missing, get_elem?-lt packet s.position)
    | inr (byte, found) ↦ ground (arith, found, dispatch_byte-Advances byte s)
  ]

  Returns-continues :
      (fuel : ℕ) (s : Scan) (round : Outcome ParseError Round)
      → Advances limits s round
      → budget limits s ≤ fuel
      → ((s' : Scan)
          → budget limits s' < fuel
          → Returns (decode_loop fuel packet encoded_end limits s'))
      → Returns (
          round >>= λ r. elim r [
            | breaks s' ↦ ok s'
            | continues s' ↦ decode_loop fuel packet encoded_end limits s'
          ])
  Returns-continues fuel s (ok (breaks s')) a h next = tt
  Returns-continues fuel s (ok (continues s')) a h next = next s' (omega arith)
  Returns-continues fuel s (err e) a h next = tt
  Returns-continues fuel s out_of_bounds a h next = a
  Returns-continues fuel s out_of_fuel a h next = a

  decode_loop-Returns :
      (fuel : ℕ) (s : Scan)
      → budget limits s < fuel
      → Returns (decode_loop fuel packet encoded_end limits s)
  unfolding decode_loop
  decode_loop-Returns zero s h = absurd (omega arith)
  decode_loop-Returns (suc fuel) s h =
      Returns-continues fuel s (decode_round packet encoded_end limits s) (decode_round-Advances s)
        (omega arith) (decode_loop-Returns fuel)

Returns-map_name_error :
    (start : ℕ) (labels : List Bytes) → Returns (map_name_error start (from_labels labels))
unfolding from_labels
Returns-map_name_error start labels = ground (arith, check_labels-Returns 0 1 labels)

-- Whatever the packet holds, compression loops included, `decode_name` returns a name or an error:
-- its loop ends within the fuel and it reads no byte outside of the packet.
pub decode_name-Returns :
    (packet : Bytes) (start encoded_end : ℕ) (limits : ParseLimits)
    → Returns (decode_name packet start encoded_end limits)
unfolding decode_name
decode_name-Returns packet start encoded_end limits =
    Returns-bind (decode_loop (decode_fuel limits) packet encoded_end limits (first_scan start)) _
      (decode_loop-Returns packet encoded_end limits (decode_fuel limits) (first_scan start)
        (omega arith))
      (λ s _.
        Returns-bind (map_name_error start (from_labels s.labels)) _
          (Returns-map_name_error start s.labels) (λ _ _. tt))

map_name_error-ok :
    (start : ℕ) (m : Outcome DomainNameError DomainName) (name : DomainName)
    → map_name_error start m ≡ ok name
    → m ≡ ok name
map_name_error-ok start (ok a) name e = ground arith
map_name_error-ok start (err x) name e = absurd (ground arith)
map_name_error-ok start out_of_bounds name e = absurd (ground arith)
map_name_error-ok start out_of_fuel name e = absurd (ground arith)

map_name_error-IsDomain :
    (start : ℕ) (labels : List Bytes) → Ensures IsDomain (map_name_error start (from_labels labels))
map_name_error-IsDomain start labels =
    Returns-Ensures IsDomain (map_name_error start (from_labels labels))
      (Returns-map_name_error start labels)
      (λ name e.
        (from_labels-IsDomain labels name (map_name_error-ok start (from_labels labels) name e)).0)

pub decode_name-IsDomain :
    (packet : Bytes) (start encoded_end : ℕ) (limits : ParseLimits)
    → Ensures (λ decoded. IsDomain decoded.name) (decode_name packet start encoded_end limits)
unfolding decode_name
decode_name-IsDomain packet start encoded_end limits =
    Ensures-bind (λ s. Unit {0}) (λ decoded. IsDomain decoded.name) _ _
      (Returns-Ensures (λ s. Unit {0})
        (decode_loop (decode_fuel limits) packet encoded_end limits (first_scan start))
        (decode_loop-Returns packet encoded_end limits (decode_fuel limits) (first_scan start)
          (omega arith))
        (λ _ _. tt))
      (λ s _.
        Ensures-bind IsDomain (λ decoded. IsDomain decoded.name) _ _
          (map_name_error-IsDomain start s.labels) (λ name h. h))
