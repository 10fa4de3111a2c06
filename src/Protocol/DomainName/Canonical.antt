-- ===== src/Protocol/DomainName/Canonical.antt =====
-- Names compared without regard to case: the canonical key, its suffixes and subdomains.
use dns_pro.Base.{
  ℕ, zero, suc, ◌+◌, ◌-◌, ◌≤◌, ◌<◌, ◌≡◌, refl, sym, ap, ◌∙◌, ◌↔◌, true, some, List, [], ◌∷◌, ◌++◌,
  map, map-append, arith, length, get_elem?, take, drop, All, length-append, length-drop,
  take-append, length-map, bytes_eq_iff, ok,
}
use dns_pro.Protocol.Wire.{Bytes}
use dns_pro.Protocol.DomainName.{
  DomainName, ascii_lower, key_of, from_labels, label_offset, canonical_suffix_key, canonical_label,
  labels_equal_canonical, equal_lowered, all_equal_canonical, is_subdomain_of, same_name,
}
use dns_pro.Protocol.DomainName.Case.{SameLabels, lowered_labels_iff}
use dns_pro.Protocol.DomainName.Valid.{IsLabel, named, from_labels_iff}

-- The labels that names are compared by.
abbrev pub lowered : List Bytes → List Bytes
lowered labels = map (map ascii_lower) labels

split_key :
    (xs ys us vs : Bytes) → length xs ≡ length ys → xs ++ us ≡ ys ++ vs → (xs ≡ ys) × (us ≡ vs)
split_key [] [] us vs h e = (refl, e)
split_key [] (y ∷ ys) us vs h e = absurd (omega arith)
split_key (x ∷ xs) [] us vs h e = absurd (omega arith)
split_key (x ∷ xs) (y ∷ ys) us vs h e = ground (arith, split_key xs ys us vs)

-- The key determines the lowered labels, since each label is behind its length.
key_of-injective :
    (xs ys : List Bytes)
    → All IsLabel xs
    → All IsLabel ys
    → key_of xs ≡ key_of ys
    → lowered xs ≡ lowered ys
unfolding key_of
key_of-injective [] [] h k e = refl
key_of-injective [] (y ∷ ys) h k e = absurd (ground arith)
key_of-injective (x ∷ xs) [] h k e = absurd (ground arith)
key_of-injective (x ∷ xs) (y ∷ ys) h k e = ground (
  arith,
  length-map ascii_lower x,
  length-map ascii_lower y,
  split_key (map ascii_lower x) (map ascii_lower y) (key_of xs) (key_of ys),
  key_of-injective xs ys h.1 k.1,
)

map-lower-length : (x y : Bytes) → map ascii_lower x ≡ map ascii_lower y → length x ≡ length y
map-lower-length x y e =
    omega (arith, ap length e, length-map ascii_lower x, length-map ascii_lower y)

pub key_of-lowered : (xs ys : List Bytes) → lowered xs ≡ lowered ys → key_of xs ≡ key_of ys
unfolding key_of
key_of-lowered [] [] e = refl
key_of-lowered [] (y ∷ ys) e = absurd (ground arith)
key_of-lowered (x ∷ xs) [] e = absurd (ground arith)
key_of-lowered (x ∷ xs) (y ∷ ys) e = ground (arith, map-lower-length x y, key_of-lowered xs ys)

-- Two names built by `from_labels` are equal for `operator==` exactly when they have as many labels,
-- and each has the bytes of the other's, but for letters from A to Z and from a to z, whose case does
-- not count.
pub same_name_iff :
    (xs ys : List Bytes) (name other : DomainName)
    → from_labels xs ≡ ok name
    → from_labels ys ≡ ok other
    → (same_name name other ≡ true) ↔ SameLabels xs ys
unfolding same_name
same_name_iff xs ys name other e f =
    let (fits, is_named) = (from_labels_iff xs name).0 e in
    let (fits', is_named') = (from_labels_iff ys other).0 f in
    rw (is_named, is_named')
      (
        λ h.
            (lowered_labels_iff xs ys).0
              (key_of-injective xs ys fits.each fits'.each ((bytes_eq_iff _ _).0 h)),
        λ h. (bytes_eq_iff _ _).1 (key_of-lowered xs ys ((lowered_labels_iff xs ys).1 h)),
      )

drop-length_add : (xs ys : Bytes) (n : ℕ) → drop (length xs + n) (xs ++ ys) ≡ drop n ys
drop-length_add [] ys n = ap (λ k. drop k ys) (omega arith)
drop-length_add (x ∷ xs) ys n =
    ap (λ k. drop k (x ∷ (xs ++ ys)))
      (let e : suc (length xs) + n ≡ suc (length xs + n) = omega arith in e)
    ∙ drop-length_add xs ys n

drop_key :
    (label : Bytes) (labels : List Bytes) (n : ℕ)
    → drop (length label + 1 + n) (key_of (label ∷ labels)) ≡ drop n (key_of labels)
unfolding key_of
drop_key label labels n =
    ap (λ k. drop k (key_of (label ∷ labels)))
      (let e : length label + 1 + n ≡ suc (length (map ascii_lower label) + n) =
          omega (arith, length-map ascii_lower label) in
        e)
    ∙ drop-length_add (map ascii_lower label) (key_of labels) n

drop-label_offset :
    (index : ℕ) (labels : List Bytes)
    → drop (label_offset index labels) (key_of labels) ≡ key_of (drop index labels)
unfolding label_offset
drop-label_offset zero labels = refl
drop-label_offset (suc index) [] = refl
drop-label_offset (suc index) (label ∷ labels) =
    drop_key label labels (label_offset index labels) ∙ drop-label_offset index labels

-- For a name that `from_labels` built and an index inside of it, the suffix key taken by offset
-- arithmetic is the key of the name without its first labels.
pub canonical_suffix_key_lem :
    (labels : List Bytes) (name : DomainName) (first : ℕ)
    → from_labels labels ≡ ok name
    → first < length labels
    → canonical_suffix_key name first ≡ key_of (drop first labels)
unfolding canonical_suffix_key
canonical_suffix_key_lem labels name first e h =
    rw (((from_labels_iff labels name).0 e).1) (ground (arith, drop-label_offset first labels))

equal_lowered_iff :
    (xs ys : Bytes)
    → length xs ≡ length ys
    → (equal_lowered xs ys ≡ true) ↔ (map ascii_lower xs ≡ map ascii_lower ys)
unfolding equal_lowered
equal_lowered_iff [] [] h = ground arith
equal_lowered_iff [] (y ∷ ys) h = absurd (omega arith)
equal_lowered_iff (x ∷ xs) [] h = absurd (omega arith)
equal_lowered_iff (x ∷ xs) (y ∷ ys) h = ground (arith, equal_lowered_iff xs ys)

pub labels_equal_canonical_iff :
    (xs ys : Bytes)
    → (labels_equal_canonical xs ys ≡ true) ↔ (map ascii_lower xs ≡ map ascii_lower ys)
unfolding labels_equal_canonical
labels_equal_canonical_iff xs ys = ground (arith, equal_lowered_iff xs ys, map-lower-length xs ys)

all_equal_canonical_iff :
    (xs ys : List Bytes)
    → length xs ≡ length ys
    → (all_equal_canonical xs ys ≡ true) ↔ (lowered xs ≡ lowered ys)
unfolding all_equal_canonical
all_equal_canonical_iff [] [] h = ground arith
all_equal_canonical_iff [] (y ∷ ys) h = absurd (omega arith)
all_equal_canonical_iff (x ∷ xs) [] h = absurd (omega arith)
all_equal_canonical_iff (x ∷ xs) (y ∷ ys) h =
    ground (arith, labels_equal_canonical_iff x y, all_equal_canonical_iff xs ys)

pub lowered-append : (xs ys : List Bytes) → lowered (xs ++ ys) ≡ lowered xs ++ lowered ys
lowered-append xs ys = map-append (map ascii_lower) xs ys

append-cancel :
    {A : Type 0} (xs ys us vs : List A) → length us ≡ length vs → xs ++ us ≡ ys ++ vs → us ≡ vs
append-cancel [] [] us vs h e = e
append-cancel [] (y ∷ ys) us vs h e = absurd (omega (arith, ap length e, length-append ys vs))
append-cancel (x ∷ xs) [] us vs h e = absurd (omega (arith, ap length e, length-append xs us))
append-cancel (x ∷ xs) (y ∷ ys) us vs h e = ground (arith, append-cancel xs ys us vs)

take-drop-lowered :
    (n : ℕ) (xs : List Bytes) → lowered xs ≡ lowered (take n xs) ++ lowered (drop n xs)
take-drop-lowered zero xs = refl
take-drop-lowered (suc n) [] = refl
take-drop-lowered (suc n) (x ∷ xs) = ap (◌∷◌ (map ascii_lower x)) (take-drop-lowered n xs)

-- The labels of the parent stand at the end of those of the name.
abbrev pub EndsWith : List Bytes → List Bytes → Type 0
EndsWith labels parents = (front : List Bytes) × (lowered labels ≡ front ++ lowered parents)

pub EndsWith-drop :
    (xs ys : List Bytes) → EndsWith xs ys → lowered (drop (length xs - length ys) xs) ≡ lowered ys
EndsWith-drop xs ys (front, e) =
    let n = length xs - length ys in
    append-cancel (lowered (take n xs)) front (lowered (drop n xs)) (lowered ys)
      (omega (
        arith,
        length-map (map ascii_lower) (drop n xs),
        length-map (map ascii_lower) ys,
        length-drop n xs,
        ap length e,
        length-append front (lowered ys),
        length-map (map ascii_lower) xs,
      ))
      (sym (take-drop-lowered n xs) ∙ e)

-- `is_subdomain_of` answers true exactly when the labels of the parent, letter case aside, are the
-- last labels of the name.
pub is_subdomain_of_iff :
    (name parent : DomainName)
    → (is_subdomain_of name parent ≡ true) ↔ EndsWith name.labels parent.labels
unfolding is_subdomain_of
is_subdomain_of_iff name parent =
    let n = length name.labels - length parent.labels in
    let same : length parent.labels ≤ length name.labels
        → length (drop n name.labels) ≡ length parent.labels =
      λ h. omega (arith, length-drop n name.labels) in
    (
      λ h. (
        lowered (take n name.labels),
        take-drop-lowered n name.labels
            ∙ ap (◌++◌ (lowered (take n name.labels)))
                (ground (arith, same, all_equal_canonical_iff (drop n name.labels) parent.labels)),
      ),
      λ h. ground (
        arith,
        same,
        EndsWith-drop name.labels parent.labels h,
        all_equal_canonical_iff (drop n name.labels) parent.labels,
        ap length h.1,
        length-append h.0 (lowered parent.labels),
        length-map (map ascii_lower) name.labels,
        length-map (map ascii_lower) parent.labels,
      ),
    )

drop_elem :
    (xs : List Bytes) (i : ℕ) (x : Bytes)
    → get_elem? xs i ≡ some x
    → drop i xs ≡ x ∷ drop (suc i) xs
drop_elem [] i x e = absurd (ground arith)
drop_elem (y ∷ xs) zero x e = ground arith
drop_elem (y ∷ xs) (suc i) x e = drop_elem xs i x e

drop_one_more : (n : ℕ) (xs : Bytes) → drop (n + 1) xs ≡ drop 1 (drop n xs)
drop_one_more zero xs = refl
drop_one_more (suc n) [] = ap (λ k. drop k []) (let e : suc n + 1 ≡ suc (n + 1) = omega arith in e)
drop_one_more (suc n) (x ∷ xs) =
    ap (λ k. drop k (x ∷ xs)) (let e : suc n + 1 ≡ suc (n + 1) = omega arith in e)
    ∙ drop_one_more n xs

take_key :
    (label : Bytes) (labels : List Bytes)
    → take (length label) (drop 1 (key_of (label ∷ labels))) ≡ map ascii_lower label
unfolding key_of
take_key label labels =
    ap (λ n. take n (map ascii_lower label ++ key_of labels)) (sym (length-map ascii_lower label))
    ∙ take-append (map ascii_lower label) (key_of labels)

-- A label of the canonical key is the label in lower case.
pub canonical_label_lem :
    (labels : List Bytes) (index : ℕ) (label : Bytes)
    → get_elem? labels index ≡ some label
    → canonical_label (named labels) index ≡ map ascii_lower label
unfolding canonical_label
canonical_label_lem labels index label e = rw e (
    ap (take (length label)) (
      drop_one_more (label_offset index labels) (key_of labels)
      ∙ ap (drop 1) (drop-label_offset index labels ∙ ap key_of (drop_elem labels index label e)))
    ∙ take_key label (drop (suc index) labels))
