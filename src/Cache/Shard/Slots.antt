-- ===== src/Cache/Shard/Slots.antt =====
-- What the operations on the index and on the slots do to a lookup and to the counts.
use dns_pro.Base.{
  ℕ, ◌+◌, ◌≡◌, refl, ◌↔◌, inl, inr, true, none, some, [], ◌∷◌, arith, if◌then◌else◌, Bool-cases,
  length, bytes_eq_iff,
}
use dns_pro.Cache.Shard.{CacheKey, Index, key_eq, find, erase, emplace}

pub key_eq_iff : (key other : CacheKey) → (key_eq key other ≡ true) ↔ (key ≡ other)
unfolding key_eq
key_eq_iff key other = ground (arith, bytes_eq_iff key.qname other.qname)

pub find-erase :
    (index : Index) (key other : CacheKey)
    → find (erase index key) other ≡ (if key_eq key other then none else find index other)
unfolding find erase
find-erase [] key other = ground arith
find-erase ((k, i) ∷ index) key other =
    ground (
      arith,
      key_eq_iff k key,
      key_eq_iff key other,
      key_eq_iff k other,
      find-erase index key other,
    )

pub find-emplace :
    (index : Index) (key other : CacheKey) (i : ℕ)
    → find index key ≡ none
    → find (emplace index key i) other ≡ (if key_eq key other then some i else find index other)
unfolding emplace
find-emplace index key other i absent = rw (absent, emplace) (unfold find in refl)

pub emplace_new :
    (index : Index) (key : CacheKey) (i : ℕ)
    → find index key ≡ none
    → emplace index key i ≡ (key, i) ∷ index
unfolding emplace
emplace_new index key i absent = rw (absent, emplace) refl

-- No key stands twice in the index.
abbrev pub Distinct : Index → Type 0
Distinct [] = Unit {0}
Distinct ((k, i) ∷ index) = (find index k ≡ none) × Distinct index

pub erase-Distinct : (index : Index) (key : CacheKey) → Distinct index → Distinct (erase index key)
unfolding erase
erase-Distinct [] key h = tt
erase-Distinct ((k, i) ∷ index) key h =
    ground (arith, find-erase index key k, erase-Distinct index key h.1)

pub length-erase_absent :
    (index : Index) (key : CacheKey)
    → find index key ≡ none
    → length (erase index key) ≡ length index
unfolding find erase
length-erase_absent [] key h = refl
length-erase_absent ((k, i) ∷ index) key h = ground (arith, length-erase_absent index key)

pub length-erase :
    (index : Index) (key : CacheKey) (i : ℕ)
    → Distinct index
    → find index key ≡ some i
    → length (erase index key) + 1 ≡ length index
unfolding find erase
length-erase [] key i d h = absurd (ground (arith, h))
length-erase ((k, j) ∷ index) key i d h = elim (Bool-cases (key_eq k key)) [
  | inl same ↦
      let absent : find index key ≡ none = rw (← (key_eq_iff k key).0 same) d.0 in
      ground (arith, same, length-erase_absent index key absent)
  | inr differs ↦ ground (arith, differs, length-erase index key i d.1)
]
