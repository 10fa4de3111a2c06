-- ===== src/Protocol/DomainName/Total.antt =====
-- Reading a name from text returns, with a name or an error.
use dns_pro.Base.{
  ℕ, zero, suc, ◌+◌, ◌-◌, Bool, true, false, not, ◌||◌, Option, none, some, List, [], ◌∷◌, ◌++◌,
  ltb, ◌==◌, if◌then◌else◌, length, bytes_eq, Outcome, Returns, Returns-bind,
}
use dns_pro.Protocol.Wire.{Bytes}
use dns_pro.Protocol.DomainName.{
  max_label_size, max_domain_wire_size, check_labels, from_labels, Round, returns, continues,
  text_round, unescape_byte, refuse, DomainNameErrorCode, finish_text, text_loop, from_text,
}

-- A test between results that return.
Returns-if :
    {E A : Type 0} (test : Bool) (m n : Outcome E A)
    → Returns m
    → Returns n
    → Returns (if test then m else n)
Returns-if true m n h k = h
Returns-if false m n h k = k

Returns-check_labels :
    (index wire_size : ℕ) (labels : List Bytes) → Returns (check_labels index wire_size labels)
unfolding check_labels
Returns-check_labels index wire_size [] = tt
Returns-check_labels index wire_size (label ∷ labels) = Returns-if (length label == 0) _ _ tt (
    Returns-if (ltb max_label_size (length label)) _ _ tt (
      Returns-if (ltb (max_domain_wire_size - (length label + 1)) wire_size) _ _ tt
        (Returns-check_labels (index + 1) (wire_size + (length label + 1)) labels)))

Returns-from_labels : (labels : List Bytes) → Returns (from_labels labels)
unfolding from_labels
Returns-from_labels labels =
    Returns-bind (check_labels 0 1 labels) _ (Returns-check_labels 0 1 labels) (λ size _. tt)

Returns-finish_text : (labels : List Bytes) (label : Bytes) → Returns (finish_text labels label)
unfolding finish_text
Returns-finish_text labels label =
    Returns-if (length label == 0) _ _
      (Returns-if (length labels == 0) _ _ tt (Returns-from_labels labels))
      (Returns-from_labels (labels ++ label ∷ []))

-- A round that returns has a result that does.
abbrev RoundReturns : Round → Type 0
RoundReturns (returns result) = Returns result
RoundReturns (continues skip labels label) = Unit {0}

RoundReturns-if :
    (test : Bool) (m n : Round)
    → RoundReturns m
    → RoundReturns n
    → RoundReturns (if test then m else n)
RoundReturns-if true m n h k = h
RoundReturns-if false m n h k = k

RoundReturns-text_round :
    (value : ℕ) (rest : Bytes) (labels : List Bytes) (label : Bytes)
    → RoundReturns (text_round value rest labels label)
unfolding text_round
RoundReturns-text_round value rest labels label =
    RoundReturns-if (value == b'.') _ _
      (RoundReturns-if (length label == 0) _ _ tt
        (RoundReturns-if (length rest == 0) _ _ (Returns-from_labels (labels ++ label ∷ [])) tt))
      (RoundReturns-if (not (value == b'\\')) _ _ tt (escape (unescape_byte rest)))
  where
    escape :
        (o : Option (ℕ × ℕ))
        → RoundReturns (elim o [
          | none ↦ returns (refuse DomainNameErrorCode.invalid_escape (length labels))
          | some (byte, taken) ↦ continues taken labels (label ++ byte ∷ [])
        ])
    escape none = tt
    escape (some (byte, taken)) = tt

next_round :
    (rest : Bytes)
    → ((skip : ℕ) (labels : List Bytes) (label : Bytes)
        → Returns (text_loop skip rest labels label))
    → (round : Round) → RoundReturns round
    → Returns (elim round [
      | returns result ↦ result
      | continues skip labels label ↦ text_loop skip rest labels label
    ])
next_round rest k (returns result) h = h
next_round rest k (continues skip labels label) h = k skip labels label

Returns-text_loop :
    (skip : ℕ) (text : Bytes) (labels : List Bytes) (label : Bytes)
    → Returns (text_loop skip text labels label)
unfolding text_loop
Returns-text_loop skip [] labels label = Returns-finish_text labels label
Returns-text_loop (suc skip) (value ∷ rest) labels label = Returns-text_loop skip rest labels label
Returns-text_loop zero (value ∷ rest) labels label =
    next_round rest (λ skip labels' label'. Returns-text_loop skip rest labels' label')
      (text_round value rest labels label) (RoundReturns-text_round value rest labels label)

pub Returns-from_text : (text : Bytes) → Returns (from_text text)
unfolding from_text
Returns-from_text text =
    Returns-if (length text == 0 || bytes_eq text (b'.' ∷ [])) _ _ tt
      (Returns-text_loop 0 text [] [])
