-- ===== src/Cache/Shard.antt =====
-- CacheShard of DNS_Cache.h and DNS_Cache.cpp: entries in slots, an index from keys to slots, and
-- the CLOCK hand. A time point is the count of nanoseconds since the clock's epoch. The unordered
-- map is an association list; `entries_[i]` outside of the vector and the dereference of an empty
-- optional are `out_of_bounds`.
pub mod Slots
pub mod Invariant
pub mod Lookup
pub mod Stored
pub mod Clock
pub mod Put
pub mod Runs
use dns_pro.Base.{
  ℕ, zero, suc, ◌+◌, ◌-◌, ◌*◌, ◌/◌, ◌%◌, ◌^◌, min, max, Bool, true, false, not, ◌&&◌, ◌||◌, Option,
  none, some, List, [], ◌∷◌, ◌++◌, ltb, leb, ◌==◌, if◌then◌else◌, length, get_elem?, set, bytes_eq,
  Outcome, ok, out_of_bounds, out_of_fuel, ◌>>=◌, ◌>>◌, in_bounds,
}
use dns_pro.Protocol.Wire.{Bytes}
use dns_pro.Protocol.DomainName.{DomainName}
use dns_pro.Cache.Policy.{IpAddress}

pub record CacheKey : Type 0 where
  pub qname : Bytes
  pub qtype : ℕ
  pub qclass : ℕ

abbrev pub cache_key : DomainName → ℕ → ℕ → CacheKey
cache_key name type_code record_class = record {
  qname = name.canonical_key;
  qtype = type_code;
  qclass = record_class;
}

-- operator== of CacheKey.
unfoldable pub key_eq : CacheKey → CacheKey → Bool
key_eq key other =
    bytes_eq key.qname other.qname && key.qtype == other.qtype && key.qclass == other.qclass

pub record CacheHit : Type 0 where
  pub addresses : List IpAddress
  pub remaining_ttl : ℕ

pub record CacheEntry : Type 0 where
  pub key : CacheKey
  pub addresses : List IpAddress
  pub expiry : ℕ
  pub chance : Bool

abbrev pub Slots : Type 0
Slots = List (Option CacheEntry)

abbrev pub Index : Type 0
Index = List (CacheKey × ℕ)

unfoldable pub find : Index → CacheKey → Option ℕ
find [] key = none
find ((k, i) ∷ index) key = if key_eq k key then some i else find index key

unfoldable pub erase : Index → CacheKey → Index
erase [] key = []
erase ((k, i) ∷ index) key =
    let rest = erase index key in if key_eq k key then rest else (k, i) ∷ rest

-- A key that is there keeps its slot.
unfoldable pub emplace : Index → CacheKey → ℕ → Index
emplace index key slot_index = elim (find index key) [
  | some old ↦ index
  | none ↦ (key, slot_index) ∷ index
]

pub record CacheShard : Type 0 where
  pub capacity : ℕ
  pub hand : ℕ
  pub entries : Slots
  pub index : Index

abbrev pub new_shard : ℕ → CacheShard
new_shard capacity = record { capacity = capacity; hand = 0; entries = []; index = [] }

-- size()
abbrev pub size : CacheShard → ℕ
size shard = length shard.index

abbrev pub nanoseconds : ℕ
nanoseconds = 10 ^ 9

-- std::chrono::ceil to seconds, and the bounds of a uint32_t.
abbrev pub remaining_seconds : ℕ → ℕ → ℕ
remaining_seconds expiry now =
    min (max ((expiry - now + (nanoseconds - 1)) / nanoseconds) 1) (2 ^ 32 - 1)

abbrev pub forget : CacheShard → CacheKey → ℕ → CacheShard
forget shard key slot_index = record shard {
  index = erase shard.index key;
  entries = set shard.entries slot_index none;
}

unfoldable pub get_slot :
    CacheShard → CacheKey → ℕ → ℕ → Option CacheEntry → Option CacheHit × CacheShard
get_slot shard key now i none = (none, forget shard key i)
get_slot shard key now i (some entry) =
    if leb entry.expiry now then (none, forget shard key i) else (
      some (record {
        addresses = entry.addresses;
        remaining_ttl = remaining_seconds entry.expiry now;
      }),
      record shard { entries = set shard.entries i (some (record entry { chance = true })) },
    )

unfoldable pub get : CacheShard → CacheKey → ℕ → Outcome ⊥ (Option CacheHit × CacheShard)
get shard key now = elim (find shard.index key) [
  | none ↦ ok (none, shard)
  | some i ↦ in_bounds (get_elem? shard.entries i) >>= λ slot. ok (get_slot shard key now i slot)
]

abbrev pub fresh_entry : CacheKey → List IpAddress → ℕ → CacheEntry
fresh_entry key addresses expiry = record {
  key = key;
  addresses = addresses;
  expiry = expiry;
  chance = true;
}

-- The index without the key that a slot holds.
unfoldable pub drop_key : Index → Option CacheEntry → Index
drop_key index none = index
drop_key index (some old) = erase index old.key

unfoldable pub replace_slot : CacheShard → ℕ → CacheEntry → Outcome ⊥ CacheShard
replace_slot shard i entry = do
  slot ← in_bounds (get_elem? shard.entries i)
  ok (record shard {
    entries = set shard.entries i (some entry);
    index = emplace (drop_key shard.index slot) entry.key i;
  })

unfoldable pub evictable : ℕ → Option CacheEntry → Bool
evictable now none = true
evictable now (some entry) = leb entry.expiry now || not entry.chance

unfoldable pub clear_chance : Option CacheEntry → Option CacheEntry
clear_chance none = none
clear_chance (some entry) = some (record entry { chance = false })

abbrev pub next_hand : CacheShard → ℕ
next_hand shard = (shard.hand + 1) % shard.capacity

abbrev pub pass_hand : CacheShard → Option CacheEntry → CacheShard
pass_hand shard slot = record shard {
  entries = set shard.entries shard.hand (clear_chance slot);
  hand = next_hand shard;
}

-- The `while (true)` of `put`: the hand clears chances up to a slot that it may replace.
unfoldable pub clock_loop : ℕ → CacheShard → ℕ → CacheEntry → Outcome ⊥ CacheShard
clock_loop zero shard now entry = out_of_fuel
clock_loop (suc fuel) shard now entry = in_bounds (get_elem? shard.entries shard.hand) >>= λ slot.
    elim (evictable now slot) [
      | true ↦ replace_slot shard shard.hand entry >>= λ replaced.
          ok (record replaced { hand = next_hand shard })
      | false ↦ clock_loop fuel (pass_hand shard slot) now entry
    ]

-- No address, or no time to live: what is there goes.
unfoldable pub put_nothing : CacheShard → CacheKey → Outcome ⊥ CacheShard
put_nothing shard key = elim (find shard.index key) [
  | none ↦ ok shard
  | some i ↦ in_bounds (get_elem? shard.entries i) >>= λ _. ok (forget shard key i)
]

-- A key that is not there: into a new slot, or into one that the hand finds.
unfoldable pub put_new : CacheShard → ℕ → CacheEntry → Outcome ⊥ CacheShard
put_new shard now entry =
    if ltb (length shard.entries) shard.capacity
    then ok (record shard {
      entries = shard.entries ++ some entry ∷ [];
      index = emplace shard.index entry.key (length shard.entries);
    })
    else clock_loop (shard.capacity + 1) shard now entry

unfoldable pub update_slot :
    CacheShard → List IpAddress → ℕ → ℕ → Option CacheEntry → Outcome ⊥ CacheShard
update_slot shard addresses expiry i none = out_of_bounds
update_slot shard addresses expiry i (some entry) =
    ok (record shard {
      entries = set shard.entries i (some (fresh_entry entry.key addresses expiry));
    })

unfoldable pub put_entry : CacheShard → CacheKey → List IpAddress → ℕ → ℕ → Outcome ⊥ CacheShard
put_entry shard key addresses expiry now = elim (find shard.index key) [
  | some i ↦ in_bounds (get_elem? shard.entries i) >>= update_slot shard addresses expiry i
  | none ↦ put_new shard now (fresh_entry key addresses expiry)
]

-- The time of expiry is a sum of natural numbers; the code's is one of signed 64-bit nanoseconds.
unfoldable pub put : CacheShard → CacheKey → List IpAddress → ℕ → ℕ → Outcome ⊥ CacheShard
put shard key addresses ttl_seconds now =
    if shard.capacity == 0
    then ok shard
    else if ttl_seconds == 0 || length addresses == 0
    then put_nothing shard key
    else put_entry shard key addresses (now + ttl_seconds * nanoseconds) now

-- The overload for one address.
unfoldable pub put_address : CacheShard → CacheKey → IpAddress → ℕ → ℕ → Outcome ⊥ CacheShard
put_address shard key address ttl_seconds now =
    if shard.capacity == 0 then ok shard else put shard key (address ∷ []) ttl_seconds now
