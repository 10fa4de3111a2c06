-- ===== src/Protocol/DomainName/Presentation.antt =====
-- The presentation format: from_text reads back what to_string and to_canonical_string print.
use dns_pro.Base.{
  ℕ, ◌+◌, ◌*◌, ◌/◌, ◌%◌, ◌≤◌, ◌<◌, ◌≡◌, refl, sym, ap, ◌∙◌, ◌≢◌, Bool, true, false, List, [], ◌∷◌,
  ◌++◌, map, append-nil, append_assoc, arith, if◌then◌else◌, length, All, length-map, bytes_eq, ok,
}
use dns_pro.Protocol.Wire.{Bytes, IsByte}
use dns_pro.Protocol.DomainName.{
  DomainName, ascii_lower, present_byte, label_to_presentation, key_of, from_labels, text_loop,
  is_ascii_digit, from_text, present_labels, to_string,
}
use dns_pro.Protocol.DomainName.Valid.{IsLabel, named, from_labels-named, from_labels_iff}

-- The byte that is shown: the byte itself, or in lower case.
abbrev shown : Bool → ℕ → ℕ
shown canonical value = if canonical then ascii_lower value else value

shown-IsByte : (canonical : Bool) (value : ℕ) → IsByte value → IsByte (shown canonical value)
unfolding ascii_lower
shown-IsByte true value h = ground arith
shown-IsByte false value h = h

module _ (rest : Bytes) (labels : List Bytes) (label : Bytes) where
  text_loop_plain :
      (byte : ℕ)
      → byte ≢ b'.'
      → byte ≢ b'\\'
      → text_loop 0 (byte ∷ rest) labels label ≡ text_loop 0 rest labels (label ++ byte ∷ [])
  unfolding text_loop
  text_loop_plain byte h k = ground arith

  text_loop_decimal :
      (x y z : ℕ)
      → x ≤ 9
      → y ≤ 9
      → z ≤ 9
      → x * 100 + y * 10 + z ≤ 255
      → text_loop 0 (b'\\' ∷ (b'0' + x) ∷ (b'0' + y) ∷ (b'0' + z) ∷ rest) labels label
        ≡ text_loop 0 rest labels (label ++ (x * 100 + y * 10 + z) ∷ [])
  unfolding text_loop is_ascii_digit
  text_loop_decimal x y z hx hy hz fits = ground arith

text_loop_quoted :
    (byte : ℕ) (rest : Bytes) (labels : List Bytes) (label : Bytes)
    → is_ascii_digit byte ≡ false
    → text_loop 0 (b'\\' ∷ byte ∷ rest) labels label ≡ text_loop 0 rest labels (label ++ byte ∷ [])
unfolding text_loop
text_loop_quoted byte [] labels label h = refl
text_loop_quoted byte (x ∷ []) labels label h = refl
text_loop_quoted byte (x ∷ y ∷ rest) labels label h = rw (h, text_loop)

text_loop-present_byte :
    (byte : ℕ) (rest : Bytes) (labels : List Bytes) (label : Bytes)
    → IsByte byte
    → text_loop 0 (present_byte byte ++ rest) labels label
      ≡ text_loop 0 rest labels (label ++ byte ∷ [])
unfolding present_byte is_ascii_digit
text_loop-present_byte byte rest labels label h = ground (
  arith,
  text_loop_quoted byte rest labels label,
  text_loop_plain rest labels label byte,
  text_loop_decimal rest labels label (byte / 100) (byte / 10 % 10) (byte % 10),
)

text_loop-label :
    (canonical : Bool) (value rest : Bytes) (labels : List Bytes) (label : Bytes)
    → All IsByte value
    → text_loop 0 (label_to_presentation value canonical ++ rest) labels label
      ≡ text_loop 0 rest labels (label ++ map (shown canonical) value)
unfolding label_to_presentation
text_loop-label canonical [] rest labels label h = rw append-nil
text_loop-label canonical (b ∷ value) rest labels label h =
    rw (append_assoc (present_byte (shown canonical b))) (
      text_loop-present_byte (shown canonical b) _ labels label (shown-IsByte canonical b h.0)
      ∙ text_loop-label canonical value rest labels (label ++ shown canonical b ∷ []) h.1
      ∙ rw append_assoc)

present_byte-head :
    (byte : ℕ) (rest : Bytes)
    → (0 < length (present_byte byte ++ rest))
      × (bytes_eq (present_byte byte ++ rest) (b'.' ∷ []) ≡ false)
unfolding present_byte bytes_eq
present_byte-head byte rest = ground arith

present_labels-head :
    (canonical : Bool) (label : Bytes) (labels : List Bytes)
    → 0 < length label
    → (0 < length (present_labels (label ∷ labels) canonical))
      × (bytes_eq (present_labels (label ∷ labels) canonical) (b'.' ∷ []) ≡ false)
unfolding present_labels label_to_presentation
present_labels-head canonical [] labels h = absurd (omega arith)
present_labels-head canonical (b ∷ label) [] h = present_byte-head (shown canonical b) _
present_labels-head canonical (b ∷ label) (l ∷ labels) h =
    rw append_assoc (present_byte-head (shown canonical b) _)

-- A dot behind a label that is not empty, with text behind it.
text_loop-dot :
    (rest : Bytes) (labels : List Bytes) (label : Bytes)
    → 0 < length label
    → 0 < length rest
    → text_loop 0 (b'.' ∷ rest) labels label ≡ text_loop 0 rest (labels ++ label ∷ []) []
unfolding text_loop
text_loop-dot rest labels label h k = ground arith

text_loop-present_labels :
    (canonical : Bool) (read : List Bytes) (label : Bytes) (labels : List Bytes)
    → All (All IsByte) (label ∷ labels)
    → All IsLabel (label ∷ labels)
    → text_loop 0 (present_labels (label ∷ labels) canonical) read []
      ≡ from_labels (read ++ map (map (shown canonical)) (label ∷ labels))
unfolding present_labels
text_loop-present_labels canonical read label [] b h =
    ap (λ t. text_loop 0 t read []) (sym (append-nil (label_to_presentation label canonical)))
    ∙ text_loop-label canonical label [] read [] b.0
    ∙ unfold text_loop in ground (arith, length-map (shown canonical) label)
text_loop-present_labels canonical read label (l ∷ labels) b h =
    text_loop-label canonical label _ read [] b.0
    ∙ text_loop-dot _ read (map (shown canonical) label)
        (omega (arith, length-map (shown canonical) label))
        (present_labels-head canonical l labels h.1.0.0).0
    ∙ text_loop-present_labels canonical (read ++ map (shown canonical) label ∷ []) l labels b.1 h.1
    ∙ rw append_assoc

from_text-present_labels :
    (canonical : Bool) (label : Bytes) (labels : List Bytes)
    → All (All IsByte) (label ∷ labels)
    → All IsLabel (label ∷ labels)
    → from_text (present_labels (label ∷ labels) canonical)
      ≡ from_labels (map (map (shown canonical)) (label ∷ labels))
unfolding from_text
from_text-present_labels canonical label labels b h =
    let head = present_labels-head canonical label labels h.0.0 in
    ground (arith, head, text_loop-present_labels canonical [] label labels b h)

map-shown : (label : Bytes) → map (shown false) label ≡ label
map-shown [] = refl
map-shown (b ∷ label) = ap (◌∷◌ b) (map-shown label)

map_same : (labels : List Bytes) → map (map (shown false)) labels ≡ labels
map_same [] = refl
map_same (label ∷ labels) = rw (map-shown label, map_same labels)

to_string-cons :
    (label : Bytes) (labels : List Bytes)
    → to_string (named (label ∷ labels)) ≡ present_labels (label ∷ labels) false
unfolding to_string
to_string-cons label labels = ground arith

-- Names as text: what `to_string` prints, `from_text` reads back to the same name, whatever bytes
-- the labels of the name hold.
pub from_text-to_string :
    (labels : List Bytes) (name : DomainName)
    → All (All IsByte) labels
    → from_labels labels ≡ ok name
    → from_text (to_string name) ≡ ok name
from_text-to_string [] name b e =
    rw (((from_labels_iff [] name).0 e).1) (unfold from_text to_string key_of bytes_eq in refl)
from_text-to_string (label ∷ labels) name b e =
    let (fits, is_named) = (from_labels_iff (label ∷ labels) name).0 e in
    rw is_named (
      ap from_text (to_string-cons label labels)
      ∙ (from_text-present_labels false label labels b fits.each
          ∙ ap from_labels (map_same (label ∷ labels))
          ∙ from_labels-named (label ∷ labels) fits))
