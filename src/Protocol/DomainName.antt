-- ===== src/Protocol/DomainName.antt =====
-- protocol/DomainName.h and protocol/DomainName.cpp. A label is a list of bytes, each below 256.
-- Text is read byte by byte; the index of the loop in `from_text` is the position in the list, and
-- what an escape makes the index skip is counted in `skip`. std::string_view::substr is `drop` and
-- `take`.
pub mod Valid
pub mod Presentation
pub mod Case
pub mod Canonical
pub mod Total
use dns_pro.Base.{
  ℕ, zero, suc, ◌+◌, ◌-◌, ◌*◌, ◌/◌, ◌%◌, Bool, true, false, ◌&&◌, ◌||◌, not, List, [], ◌∷◌, ◌++◌,
  map, Option, none, some, ltb, leb, ◌==◌, if◌then◌else◌, length, get_elem?, take, drop, bytes_eq,
  Outcome, ok, err, ◌>>=◌, ◌>>◌,
}
use dns_pro.Protocol.Wire.{Bytes}

abbrev pub max_label_size : ℕ
max_label_size = 63

abbrev pub max_domain_wire_size : ℕ
max_domain_wire_size = 255

pub data DomainNameErrorCode : Type 0 where
  empty_label invalid_escape label_too_long name_too_long : DomainNameErrorCode

pub record DomainNameError : Type 0 where
  pub code : DomainNameErrorCode
  pub label_index : ℕ

pub record DomainName : Type 0 where
  pub labels : List Bytes
  pub wire_size : ℕ
  pub canonical_key : Bytes

-- The default constructor: the root.
abbrev pub root : DomainName
root = record { labels = []; wire_size = 1; canonical_key = 0 ∷ [] }

abbrev pub refuse {ℓ} : {A : Type ℓ} → DomainNameErrorCode → ℕ → Outcome DomainNameError A
refuse code index = err (record { code = code; label_index = index })

unfoldable pub ascii_lower : ℕ → ℕ
ascii_lower value = if leb b'A' value && leb value b'Z' then value + (b'a' - b'A') else value

unfoldable pub is_ascii_digit : ℕ → Bool
is_ascii_digit value = leb b'0' value && leb value b'9'

unfoldable pub present_byte : ℕ → Bytes
present_byte byte =
    if byte == b'.' || byte == b'\\'
    then b'\\' ∷ byte ∷ []
    else if leb 0x21 byte && leb byte 0x7e
    then byte ∷ []
    else b'\\' ∷ (b'0' + byte / 100) ∷ (b'0' + byte / 10 % 10) ∷ (b'0' + byte % 10) ∷ []

unfoldable pub label_to_presentation : Bytes → Bool → Bytes
unfolding ascii_lower present_byte
label_to_presentation [] canonical = []
label_to_presentation (value ∷ label) canonical =
    present_byte (if canonical then ascii_lower value else value)
    ++ label_to_presentation label canonical

equal_lowered : Bytes → Bytes → Bool
unfolding ascii_lower
equal_lowered [] rhs = true
equal_lowered (x ∷ lhs) [] = true
equal_lowered (x ∷ lhs) (y ∷ rhs) = ascii_lower x == ascii_lower y && equal_lowered lhs rhs

unfoldable pub labels_equal_canonical : Bytes → Bytes → Bool
unfolding equal_lowered
labels_equal_canonical lhs rhs =
    if not (length lhs == length rhs) then false else equal_lowered lhs rhs

-- The first loop of `from_labels`: the wire size, or the first label that does not fit.
unfoldable pub check_labels : ℕ → ℕ → List Bytes → Outcome DomainNameError ℕ
check_labels index wire_size [] = ok wire_size
check_labels index wire_size (label ∷ labels) =
    let rest = check_labels (index + 1) (wire_size + (length label + 1)) labels in
    if length label == 0
    then refuse DomainNameErrorCode.empty_label index
    else if ltb max_label_size (length label)
    then refuse DomainNameErrorCode.label_too_long index
    else if ltb (max_domain_wire_size - (length label + 1)) wire_size
    then refuse DomainNameErrorCode.name_too_long index
    else rest

-- The second loop: a length byte and the lowered bytes of each label, then a zero byte.
unfoldable pub key_of : List Bytes → Bytes
unfolding ascii_lower
key_of [] = 0 ∷ []
key_of (label ∷ labels) = (length label % 256) ∷ (map ascii_lower label ++ key_of labels)

unfoldable pub from_labels : List Bytes → Outcome DomainNameError DomainName
from_labels labels = do
  wire_size ← check_labels 0 1 labels
  ok (record { labels = labels; wire_size = wire_size; canonical_key = key_of labels })

-- What one round of the loop in `from_text` does.
pub data Round : Type 0 where
  returns : Outcome DomainNameError DomainName → Round
  continues : ℕ → List Bytes → Bytes → Round

-- At a backslash with `rest` behind it: the byte that it stands for and the bytes it takes.
unescape_byte : Bytes → Option (ℕ × ℕ)
unfolding is_ascii_digit
unescape_byte [] = none
unescape_byte (x ∷ y ∷ z ∷ rest) =
    if is_ascii_digit x && is_ascii_digit y && is_ascii_digit z
    then (let byte = (x - b'0') * 100 + (y - b'0') * 10 + (z - b'0') in
        if ltb 255 byte then none else some (byte, 3))
    else some (x, 1)
unescape_byte (x ∷ rest) = some (x, 1)

unfoldable pub text_round : ℕ → Bytes → List Bytes → Bytes → Round
unfolding unescape_byte
text_round value rest labels label =
    if value == b'.'
    then (if length label == 0
        then returns (refuse DomainNameErrorCode.empty_label (length labels))
        else if length rest == 0
        then returns (from_labels (labels ++ label ∷ []))
        else continues 0 (labels ++ label ∷ []) [])
    else if not (value == b'\\')
    then continues 0 labels (label ++ value ∷ [])
    else elim (unescape_byte rest) [
      | none ↦ returns (refuse DomainNameErrorCode.invalid_escape (length labels))
      | some (byte, taken) ↦ continues taken labels (label ++ byte ∷ [])
    ]

-- Behind the loop.
finish_text : List Bytes → Bytes → Outcome DomainNameError DomainName
finish_text labels label =
    if length label == 0
    then (if length labels == 0
        then refuse DomainNameErrorCode.empty_label (length labels)
        else from_labels labels)
    else from_labels (labels ++ label ∷ [])

unfoldable pub text_loop : ℕ → Bytes → List Bytes → Bytes → Outcome DomainNameError DomainName
unfolding text_round finish_text
text_loop skip [] labels label = finish_text labels label
text_loop (suc skip) (value ∷ rest) labels label = text_loop skip rest labels label
text_loop zero (value ∷ rest) labels label = elim (text_round value rest labels label) [
  | returns result ↦ result
  | continues skip labels' label' ↦ text_loop skip rest labels' label'
]

unfoldable pub from_text : Bytes → Outcome DomainNameError DomainName
unfolding text_loop
from_text text =
    if length text == 0 || bytes_eq text (b'.' ∷ []) then ok root else text_loop 0 text [] []

unfoldable pub is_root : DomainName → Bool
is_root name = length name.labels == 0

unfoldable pub present_labels : List Bytes → Bool → Bytes
present_labels [] canonical = []
present_labels (label ∷ []) canonical = label_to_presentation label canonical
present_labels (label ∷ labels) canonical =
    label_to_presentation label canonical ++ b'.' ∷ present_labels labels canonical

unfoldable pub to_string : DomainName → Bytes
unfolding is_root present_labels
to_string name = if is_root name then b'.' ∷ [] else present_labels name.labels false

unfoldable pub to_canonical_string : DomainName → Bytes
unfolding is_root present_labels
to_canonical_string name = if is_root name then b'.' ∷ [] else present_labels name.labels true

-- The offset of a label in the canonical key.
unfoldable pub label_offset : ℕ → List Bytes → ℕ
label_offset zero labels = 0
label_offset (suc index) [] = 0
label_offset (suc index) (label ∷ labels) = length label + 1 + label_offset index labels

unfoldable pub canonical_suffix_key : DomainName → ℕ → Bytes
unfolding label_offset
canonical_suffix_key name first_label =
    if leb (length name.labels) first_label
    then []
    else drop (label_offset first_label name.labels) name.canonical_key

unfoldable pub canonical_label : DomainName → ℕ → Bytes
unfolding label_offset
canonical_label name index = elim (get_elem? name.labels index) [
  | none ↦ []
  | some label ↦ take (length label) (drop (label_offset index name.labels + 1) name.canonical_key)
]

all_equal_canonical : List Bytes → List Bytes → Bool
unfolding labels_equal_canonical
all_equal_canonical labels [] = true
all_equal_canonical [] (label ∷ parents) = true
all_equal_canonical (label ∷ labels) (parent ∷ parents) =
    labels_equal_canonical label parent && all_equal_canonical labels parents

unfoldable pub is_subdomain_of : DomainName → DomainName → Bool
unfolding all_equal_canonical
is_subdomain_of name parent =
    if ltb (length name.labels) (length parent.labels)
    then false
    else all_equal_canonical (drop (length name.labels - length parent.labels) name.labels)
        parent.labels

-- operator==
unfoldable pub same_name : DomainName → DomainName → Bool
same_name name other = bytes_eq name.canonical_key other.canonical_key
