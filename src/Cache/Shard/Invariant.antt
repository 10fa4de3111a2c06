-- ===== src/Cache/Shard/Invariant.antt =====
-- The agreement of a shard's index with its slots, and the ways in which an operation changes both.
use dns_pro.Base.{
  ℕ, ◌-◌, ◌≤◌, ◌<◌, ◌≡◌, refl, sym, ap, ◌∙◌, subst, inl, inr, Bool, true, false, Option, none, some,
  [], ◌∷◌, ◌++◌, arith, ◌==◌, if◌then◌else◌, Option-cases, length, get_elem?, set, length-append,
  length-set, get_elem?-set, get_elem?-append_one, lt-get_elem?, one_if, count, count-set,
  count-append_one, count-le-length,
}
use dns_pro.Cache.Shard.{CacheKey, CacheEntry, CacheShard, Slots, find, emplace, forget, new_shard}
use dns_pro.Cache.Shard.Slots.{
  key_eq_iff, find-erase, find-emplace, emplace_new, Distinct, erase-Distinct, length-erase,
}

abbrev pub entry_key : Option CacheEntry → Option CacheKey
entry_key none = none
entry_key (some entry) = some entry.key

abbrev pub is_live : Option CacheEntry → Bool
is_live none = false
is_live (some entry) = true

-- The key of the entry in a slot.
unfoldable pub slot_key : Slots → ℕ → Option CacheKey
slot_key entries i = elim (get_elem? entries i) [ none ↦ none | some slot ↦ entry_key slot ]

-- The index leads each key to the one slot that holds it, and knows all keys held.
pub record IsShard (shard : CacheShard) : Type 0 where
  pub fits : length shard.entries ≤ shard.capacity
  pub hand_inside : shard.hand ≤ shard.capacity - 1
  pub distinct : Distinct shard.index
  pub sized : length shard.index ≡ count is_live shard.entries
  pub leads :
      (key : CacheKey) (i : ℕ) → find shard.index key ≡ some i → slot_key shard.entries i ≡ some key
  pub knows :
      (key : CacheKey) (i : ℕ) → slot_key shard.entries i ≡ some key → find shard.index key ≡ some i

pub slot_key-set :
    (entries : Slots) (i j : ℕ) (slot : Option CacheEntry)
    → i < length entries
    → slot_key (set entries i slot) j ≡ (if i == j then entry_key slot else slot_key entries j)
unfolding slot_key
slot_key-set entries i j slot h = ground (arith, get_elem?-set entries i j slot h)

pub slot_key-at :
    (entries : Slots) (i : ℕ) (slot : Option CacheEntry)
    → get_elem? entries i ≡ some slot
    → slot_key entries i ≡ entry_key slot
unfolding slot_key
slot_key-at entries i slot h = rw (h, slot_key)

pub new_shard-IsShard : (capacity : ℕ) → IsShard (new_shard capacity)
unfolding slot_key find
new_shard-IsShard capacity = record {
  fits = omega arith;
  hand_inside = omega arith;
  distinct = tt;
  sized = refl;
  leads = λ key i h. absurd (ground (arith, h));
  knows = λ key i h. absurd (ground (arith, h));
}

module _ (shard : CacheShard) (i : ℕ) (old : Option CacheEntry) (v : IsShard shard)
    (at : get_elem? shard.entries i ≡ some old) where
  -- The entry of a slot may change, but for its key.
  pub set-IsShard :
      (slot : Option CacheEntry) (hand : ℕ)
      → entry_key slot ≡ entry_key old
      → is_live slot ≡ is_live old
      → hand ≤ shard.capacity - 1
      → IsShard (record shard { entries = set shard.entries i slot; hand = hand })
  set-IsShard slot hand same_key same_life inside =
      let h = lt-get_elem? shard.entries i old at in
      let same : (j : ℕ) → slot_key (set shard.entries i slot) j ≡ slot_key shard.entries j = λ j.
        ground (
          arith,
          slot_key-set shard.entries i j slot h,
          slot_key-at shard.entries i old at,
          same_key,
        ) in
      record {
        fits = omega (arith, length-set shard.entries i slot, v.fits);
        hand_inside = inside;
        distinct = v.distinct;
        sized =
            omega
              (arith, count-set is_live shard.entries i old slot at, v.sized, ap one_if same_life);
        leads = λ key j e. same j ∙ v.leads key j e;
        knows = λ key j e. v.knows key j (sym (same j) ∙ e);
      }

  -- A slot is emptied, and its key leaves the index.
  pub forget-IsShard : (key : CacheKey) → entry_key old ≡ some key → IsShard (forget shard key i)
  forget-IsShard key is_key =
      let h = lt-get_elem? shard.entries i old at in
      let here : find shard.index key ≡ some i =
        v.knows key i (slot_key-at shard.entries i old at ∙ is_key) in
      let live : is_live old ≡ true = ground (arith, is_key) in
      record {
        fits = omega (arith, length-set shard.entries i none, v.fits);
        hand_inside = v.hand_inside;
        distinct = erase-Distinct shard.index key v.distinct;
        sized = omega (
          arith,
          count-set is_live shard.entries i old none at,
          v.sized,
          length-erase shard.index key i v.distinct here,
          ap one_if live,
        );
        leads = λ k j e. ground (
          arith,
          find-erase shard.index key k,
          slot_key-set shard.entries i j none h,
          v.leads k j,
          here,
          key_eq_iff key k,
          v.leads key i,
        );
        knows = λ k j e. ground (
          arith,
          find-erase shard.index key k,
          slot_key-set shard.entries i j none h,
          v.knows k j,
          here,
          key_eq_iff key k,
        );
      }

-- An empty slot is filled with an entry for a key that the index does not know.
pub fill-IsShard :
    (shard : CacheShard) (i : ℕ) (entry : CacheEntry)
    → IsShard shard
    → get_elem? shard.entries i ≡ some none
    → find shard.index entry.key ≡ none
    → IsShard (record shard {
      entries = set shard.entries i (some entry);
      index = emplace shard.index entry.key i;
    })
fill-IsShard shard i entry v at absent =
    let h = lt-get_elem? shard.entries i none at in
    let key : CacheKey = entry.key in
    record {
      fits = omega (arith, length-set shard.entries i (some entry), v.fits);
      hand_inside = v.hand_inside;
      distinct = subst Distinct (sym (emplace_new shard.index key i absent)) (absent, v.distinct);
      sized = omega (
        arith,
        ap length (emplace_new shard.index key i absent),
        count-set is_live shard.entries i none (some entry) at,
        v.sized,
      );
      leads = λ k j e. ground (
        arith,
        find-emplace shard.index key k i absent,
        slot_key-set shard.entries i j (some entry) h,
        v.leads k j,
        key_eq_iff key k,
        slot_key-at shard.entries i none at,
        v.leads k i,
      );
      knows = λ k j e. ground (
        arith,
        find-emplace shard.index key k i absent,
        slot_key-set shard.entries i j (some entry) h,
        v.knows k j,
        key_eq_iff key k,
        slot_key-at shard.entries i none at,
      );
    }

slot_key-append_one :
    (entries : Slots) (slot : Option CacheEntry) (j : ℕ)
    → slot_key (entries ++ slot ∷ []) j
      ≡ (if length entries == j then entry_key slot else slot_key entries j)
unfolding slot_key
slot_key-append_one entries slot j = ground (arith, get_elem?-append_one entries slot j)

pub slot_key-inside :
    (entries : Slots) (j : ℕ) (key : CacheKey) → slot_key entries j ≡ some key → j < length entries
unfolding slot_key
slot_key-inside entries j key h = elim (Option-cases (get_elem? entries j)) [
  | inl outside ↦ absurd (ground (arith, outside, h))
  | inr (slot, at) ↦ lt-get_elem? entries j slot at
]

-- A new slot takes an entry for a key that the index does not know.
pub append-IsShard :
    (shard : CacheShard) (entry : CacheEntry)
    → IsShard shard
    → length shard.entries < shard.capacity
    → find shard.index entry.key ≡ none
    → IsShard (record shard {
      entries = shard.entries ++ some entry ∷ [];
      index = emplace shard.index entry.key (length shard.entries);
    })
append-IsShard shard entry v room absent =
    let n = length shard.entries in
    let key : CacheKey = entry.key in
    record {
      fits = omega (arith, length-append shard.entries (some entry ∷ []));
      hand_inside = v.hand_inside;
      distinct = subst Distinct (sym (emplace_new shard.index key n absent)) (absent, v.distinct);
      sized = omega (
        arith,
        ap length (emplace_new shard.index key n absent),
        count-append_one is_live shard.entries (some entry),
        v.sized,
      );
      leads = λ k j e. ground (
        arith,
        find-emplace shard.index key k n absent,
        slot_key-append_one shard.entries (some entry) j,
        v.leads k j,
        key_eq_iff key k,
        slot_key-inside shard.entries j k,
      );
      knows = λ k j e. ground (
        arith,
        find-emplace shard.index key k n absent,
        slot_key-append_one shard.entries (some entry) j,
        v.knows k j,
        key_eq_iff key k,
      );
    }

pub size-le-capacity : (shard : CacheShard) → IsShard shard → length shard.index ≤ shard.capacity
size-le-capacity shard v = omega (arith, v.sized, count-le-length is_live shard.entries, v.fits)
