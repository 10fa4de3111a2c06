-- ===== src/Protocol/DomainName/Valid.antt =====
-- Which label lists make a name: from_labels accepts exactly those that fit the wire format.
use dns_pro.Base.{
  ℕ, ◌+◌, ◌-◌, ◌≤◌, ◌<◌, ◌≡◌, refl, sym, ap, ◌∙◌, ◌↔◌, List, [], ◌∷◌, map, arith, length, All,
  length-append, length-map, ok, bind-eq-ok,
}
use dns_pro.Protocol.Wire.{Bytes}
use dns_pro.Protocol.DomainName.{
  DomainName, max_label_size, max_domain_wire_size, ascii_lower, check_labels, key_of, from_labels,
}

-- The bytes that a label list takes on the wire, the zero byte included.
abbrev pub wire_length : List Bytes → ℕ
wire_length [] = 1
wire_length (label ∷ labels) = length label + 1 + wire_length labels

abbrev pub IsLabel : Bytes → Type 0
IsLabel label = (0 < length label) × (length label ≤ max_label_size)

pub record FitsWire (labels : List Bytes) : Type 0 where
  pub each : All IsLabel labels
  pub total : wire_length labels ≤ max_domain_wire_size

abbrev pub named : List Bytes → DomainName
named labels = record {
  labels = labels;
  wire_size = wire_length labels;
  canonical_key = key_of labels;
}

pub wire_length_pos : (labels : List Bytes) → 0 < wire_length labels
wire_length_pos [] = omega arith
wire_length_pos (label ∷ labels) = omega arith

check_labels-ok :
    (index size : ℕ) (labels : List Bytes)
    → All IsLabel labels
    → size + wire_length labels ≤ max_domain_wire_size + 1
    → check_labels index size labels ≡ ok (size + wire_length labels - 1)
unfolding check_labels
check_labels-ok index size [] h fits = ground arith
check_labels-ok index size (label ∷ labels) h fits = ground (
  arith,
  wire_length_pos labels,
  check_labels-ok (index + 1) (size + (length label + 1)) labels h.1,
)

check_labels-fits :
    (index size : ℕ) (labels : List Bytes) (total : ℕ)
    → size ≤ max_domain_wire_size
    → check_labels index size labels ≡ ok total
    → All IsLabel labels × (size + wire_length labels ≤ max_domain_wire_size + 1)
unfolding check_labels
check_labels-fits index size [] total h e = (tt, omega arith)
check_labels-fits index size (label ∷ labels) total h e =
    ground (arith, check_labels-fits (index + 1) (size + (length label + 1)) labels total)

pub from_labels-named :
    (labels : List Bytes) → FitsWire labels → from_labels labels ≡ ok (named labels)
unfolding from_labels
from_labels-named labels h = ground (arith, check_labels-ok 0 1 labels h.each)

pub from_labels-FitsWire :
    (labels : List Bytes) (name : DomainName) → from_labels labels ≡ ok name → FitsWire labels
unfolding from_labels
from_labels-FitsWire labels name e =
    let (total, checked, _) = bind-eq-ok (check_labels 0 1 labels) _ e in
    let (each, fits) = check_labels-fits 0 1 labels total (omega arith) checked in
    record { each = each; total = omega arith }

-- `from_labels` accepts a label list exactly when every label has 1 to 63 bytes and the whole name
-- at most 255 on the wire, and then the name has these labels, that wire size and their key.
pub from_labels_iff :
    (labels : List Bytes) (name : DomainName)
    → (from_labels labels ≡ ok name) ↔ (FitsWire labels × (name ≡ named labels))
from_labels_iff labels name = (
  λ e. let fits = from_labels-FitsWire labels name e in (fits, cc (from_labels-named labels fits)),
  λ h. from_labels-named labels h.0 ∙ ap ok (sym h.1),
)

pub length-key_of : (labels : List Bytes) → length (key_of labels) ≡ wire_length labels
unfolding key_of
length-key_of [] = refl
length-key_of (label ∷ labels) = omega (
  arith,
  length-append (map ascii_lower label) (key_of labels),
  length-map ascii_lower label,
  length-key_of labels,
)

-- A name that `from_labels` can return.
abbrev pub IsDomain : DomainName → Type 0
IsDomain name = FitsWire name.labels × (name ≡ named name.labels)

pub from_labels-IsDomain :
    (labels : List Bytes) (name : DomainName)
    → from_labels labels ≡ ok name
    → IsDomain name × (name.labels ≡ labels)
from_labels-IsDomain labels name e =
    let (fits, is_named) = (from_labels_iff labels name).0 e in rw is_named ((fits, refl), refl)
