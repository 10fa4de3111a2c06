-- ===== src/Cache/Shard/Lookup.antt =====
-- A shard as a partial map from keys to addresses with an expiry, and what `get` does to it.
use dns_pro.Base.{
  ℕ, ◌<◌, ◌≡◌, refl, sym, ap, ◌∙◌, inl, inr, true, Option, none, some, List, [], ◌∷◌, ◌++◌, arith,
  leb, ◌==◌, if◌then◌else◌, ==_iff, Bool-cases, Option-cases, length, get_elem?, set, get_elem?-set,
  get_elem?-append_one, lt-get_elem?, Ensures,
}
use dns_pro.Cache.Policy.{IpAddress}
use dns_pro.Cache.Shard.{
  CacheKey, CacheEntry, CacheHit, CacheShard, Slots, key_eq, find, forget, get, get_slot,
  remaining_seconds,
}
use dns_pro.Cache.Shard.Slots.{key_eq_iff, find-erase}
use dns_pro.Cache.Shard.Invariant.{
  IsShard, slot_key, entry_key, slot_key-at, set-IsShard, forget-IsShard,
}

abbrev pub view : Option CacheEntry → Option (List IpAddress × ℕ)
view none = none
view (some entry) = some (entry.addresses, entry.expiry)

unfoldable pub slot_view : Slots → ℕ → Option (List IpAddress × ℕ)
slot_view entries i = elim (get_elem? entries i) [ none ↦ none | some slot ↦ view slot ]

-- What the shard has for a key, expired or not.
unfoldable pub peek : CacheShard → CacheKey → Option (List IpAddress × ℕ)
peek shard key = elim (find shard.index key) [ none ↦ none | some i ↦ slot_view shard.entries i ]

pub slot_view-set :
    (entries : Slots) (i j : ℕ) (slot : Option CacheEntry)
    → i < length entries
    → slot_view (set entries i slot) j ≡ (if i == j then view slot else slot_view entries j)
unfolding slot_view
slot_view-set entries i j slot h = ground (arith, get_elem?-set entries i j slot h)

pub slot_view-append_one :
    (entries : Slots) (slot : Option CacheEntry) (j : ℕ)
    → slot_view (entries ++ slot ∷ []) j
      ≡ (if length entries == j then view slot else slot_view entries j)
unfolding slot_view
slot_view-append_one entries slot j = ground (arith, get_elem?-append_one entries slot j)

pub slot_view-at :
    (entries : Slots) (i : ℕ) (slot : Option CacheEntry)
    → get_elem? entries i ≡ some slot
    → slot_view entries i ≡ view slot
unfolding slot_view
slot_view-at entries i slot h = rw (h, slot_view)

-- In a shard the index leads to a slot with an entry for the key.
pub find-entry :
    (shard : CacheShard) (key : CacheKey) (i : ℕ)
    → IsShard shard
    → find shard.index key ≡ some i
    → (entry : CacheEntry) × (get_elem? shard.entries i ≡ some (some entry)) × (entry.key ≡ key)
unfolding slot_key
find-entry shard key i v e =
    let held = v.leads key i e in
    elim (Option-cases (get_elem? shard.entries i)) [
      | inl outside ↦ absurd (ground (arith, outside, held))
      | inr (slot, at) ↦ live_slot slot at (sym (slot_key-at shard.entries i slot at) ∙ held)
    ]
  where
    live_slot :
        (slot : Option CacheEntry)
        → get_elem? shard.entries i ≡ some slot
        → entry_key slot ≡ some key
        → (entry : CacheEntry) × (get_elem? shard.entries i ≡ some (some entry)) × (entry.key ≡ key)
    live_slot none at h = absurd (ground (arith, h))
    live_slot (some entry) at h = (entry, at, ground (arith, h))

-- A write that keeps what a slot shows keeps the whole map.
pub peek-set_same :
    (shard : CacheShard) (i : ℕ) (old slot : Option CacheEntry) (hand : ℕ) (key : CacheKey)
    → get_elem? shard.entries i ≡ some old
    → view slot ≡ view old
    → peek (record shard { entries = set shard.entries i slot; hand = hand }) key ≡ peek shard key
unfolding peek
peek-set_same shard i old slot hand key at same = elim (Option-cases (find shard.index key)) [
  | inl absent ↦ ground (arith, absent)
  | inr (j, e) ↦ ground (
    arith,
    e,
    slot_view-set shard.entries i j slot (lt-get_elem? shard.entries i old at),
    slot_view-at shard.entries i old at,
    same,
  )
]

-- Forgetting a key takes that key from the map and no other.
pub peek-forget :
    (shard : CacheShard) (key other : CacheKey) (i : ℕ)
    → IsShard shard
    → find shard.index key ≡ some i
    → peek (forget shard key i) other ≡ (if key_eq key other then none else peek shard other)
unfolding peek
peek-forget shard key other i v e =
    let (entry, at, is_key) = find-entry shard key i v e in
    let h = lt-get_elem? shard.entries i (some entry) at in
    elim (Option-cases (find shard.index other)) [
      | inl absent ↦ ground (arith, absent, find-erase shard.index key other)
      | inr (j, f) ↦ elim (Bool-cases (i == j)) [
        | inl same ↦ ground (
          arith,
          f,
          find-erase shard.index key other,
          key_eq_iff key other,
          v.leads key i e,
          v.leads other j f,
          (==_iff i j).0 same,
        )
        | inr differs ↦ ground (
          arith,
          f,
          find-erase shard.index key other,
          slot_view-set shard.entries i j none h,
          differs,
        )
      ]
    ]

pub peek-at :
    (shard : CacheShard) (key : CacheKey) (i : ℕ) (slot : Option CacheEntry)
    → find shard.index key ≡ some i
    → get_elem? shard.entries i ≡ some slot
    → peek shard key ≡ view slot
unfolding peek
peek-at shard key i slot e at = rw (e, peek) (slot_view-at shard.entries i slot at)

pub peek-absent :
    (shard : CacheShard) (key : CacheKey) → find shard.index key ≡ none → peek shard key ≡ none
unfolding peek
peek-absent shard key absent = rw (absent, peek) refl

-- What `get` answers for what the shard has.
abbrev pub hit_of : Option (List IpAddress × ℕ) → ℕ → Option CacheHit
hit_of none now = none
hit_of (some (addresses, expiry)) now =
    if leb expiry now
    then none
    else some (record { addresses = addresses; remaining_ttl = remaining_seconds expiry now })

-- What is left of the map when an expired key has been asked for.
abbrev pub unexpired : Option (List IpAddress × ℕ) → ℕ → Option (List IpAddress × ℕ)
unexpired none now = none
unexpired (some (addresses, expiry)) now = if leb expiry now then none else some (addresses, expiry)

-- The outcome of a `get`.
pub record Got (shard : CacheShard) (key : CacheKey) (now : ℕ) (r : Option CacheHit × CacheShard)
    : Type 0 where
  pub valid : IsShard r.1
  pub answer : r.0 ≡ hit_of (peek shard key) now
  pub same_capacity : r.1.capacity ≡ shard.capacity
  pub kept :
      (other : CacheKey)
      → peek r.1 other
        ≡ (if key_eq key other then unexpired (peek shard other) now else peek shard other)

get_slot-Got :
    (shard : CacheShard) (key : CacheKey) (now i : ℕ) (entry : CacheEntry)
    → IsShard shard
    → find shard.index key ≡ some i
    → get_elem? shard.entries i ≡ some (some entry)
    → entry.key ≡ key
    → Got shard key now (get_slot shard key now i (some entry))
unfolding get_slot
get_slot-Got shard key now i entry v e at is_key =
    let shown : peek shard key ≡ some (entry.addresses, entry.expiry) =
      peek-at shard key i (some entry) e at in
    elim (Bool-cases (leb entry.expiry now)) [
      | inl expired ↦ rw expired (record {
        valid = forget-IsShard shard i (some entry) v at key (ap some is_key);
        answer = ground (arith, shown, expired);
        same_capacity = refl;
        kept = λ other.
            peek-forget shard key other i v e
            ∙ ground (arith, key_eq_iff key other, shown, expired);
      })
      | inr alive ↦ rw alive (record {
        valid =
            set-IsShard shard i (some entry) v at (some (record entry { chance = true })) shard.hand
              refl refl v.hand_inside;
        answer = ground (arith, shown, alive);
        same_capacity = refl;
        kept = λ other.
            peek-set_same shard i (some entry) (some (record entry { chance = true })) shard.hand
              other at refl
            ∙ ground (arith, key_eq_iff key other, shown, alive);
      })
    ]

pub get-Got :
    (shard : CacheShard) (key : CacheKey) (now : ℕ)
    → IsShard shard
    → Ensures (Got shard key now) (get shard key now)
unfolding get
get-Got shard key now v = elim (Option-cases (find shard.index key)) [
  | inl absent ↦
      let nothing : peek shard key ≡ none = peek-absent shard key absent in
      rw (absent, get)
        (record {
          valid = v;
          answer = ground (arith, nothing);
          same_capacity = refl;
          kept = λ other. ground (arith, key_eq_iff key other, nothing);
        })
  | inr (i, e) ↦
      let (entry, at, is_key) = find-entry shard key i v e in
      rw (e, at, get) (get_slot-Got shard key now i entry v e at is_key)
]
