-- ===== src/Filter/Cuckoo.antt =====
-- CuckooFilter.h and CuckooFilter.cpp. A fingerprint is a 16-bit number, and 0 marks an empty slot
-- (`none()`). xxH3_64bits is xxhash.h's, a parameter `hash`. A bucket or slot with an index out of
-- range reads as empty and is not written; `Cuckoo/Index` is about the indices.
pub mod Index
pub mod Buckets
pub mod Kicks
pub mod Insert
pub mod Refused
pub mod Fresh
use dns_pro.Base.{
  ℕ, zero, suc, ◌+◌, ◌-◌, ◌*◌, ◌/◌, ◌%◌, ◌^◌, max, bit_and, bit_xor, Bool, true, false, ◌||◌,
  Option, none, some, List, [], ◌∷◌, ltb, leb, ◌==◌, if◌then◌else◌, length, get_elem?, set,
}
use dns_pro.Protocol.Wire.{Bytes}

abbrev pub fps_per_bucket : ℕ
fps_per_bucket = 4

abbrev pub max_fingerprint_value : ℕ
max_fingerprint_value = 2 ^ 16 - 1

pub data InsertFailureReason : Type 0 where
  no_failure load_limited kick_limited : InsertFailureReason

abbrev pub Bucket : Type 0
Bucket = List ℕ

pub record CuckooFilter : Type 0 where
  pub buckets : List Bucket
  pub size : ℕ
  pub maximum_kicks : ℕ
  pub rng_state : ℕ
  pub last_failure : InsertFailureReason

pub record KickRecord : Type 0 where
  pub bucket_index : ℕ
  pub slot_index : ℕ
  pub previous : ℕ

abbrev word : ℕ
word = 2 ^ 64

unfoldable pub splitmix64 : ℕ → ℕ
splitmix64 value =
    let v1 : ℕ = (value + 0x9e3779b97f4a7c15) % word in
    let v2 : ℕ = bit_xor v1 (v1 / 2 ^ 30) * 0xbf58476d1ce4e5b9 % word in
    let v3 : ℕ = bit_xor v2 (v2 / 2 ^ 27) * 0x94d049bb133111eb % word in bit_xor v3 (v3 / 2 ^ 31)

-- The next random word and the new state.
unfoldable pub next_rand_u64 : ℕ → ℕ × ℕ
next_rand_u64 rng_state =
    let state : ℕ = (rng_state + 0x9e3779b97f4a7c15) % word in (splitmix64 state, state)

-- std::bit_ceil, from a power of two on.
unfoldable pub bit_ceil_from : ℕ → ℕ → ℕ → ℕ
bit_ceil_from zero power n = power
bit_ceil_from (suc more) power n =
    let rest = bit_ceil_from more (power * 2) n in if leb n power then power else rest

-- `none` is std::length_error.
unfoldable pub normalize_bucket_count : ℕ → Option ℕ
unfolding bit_ceil_from
normalize_bucket_count requested =
    let n = max requested 4 in if ltb (2 ^ 63) n then none else some (bit_ceil_from 63 1 n)

unfoldable pub load_limit : ℕ → ℕ
load_limit total_slots = total_slots / 100 * 95 + total_slots % 100 * 95 / 100

unfoldable pub replicate_bucket : ℕ → List Bucket
replicate_bucket zero = []
replicate_bucket (suc n) = (0 ∷ 0 ∷ 0 ∷ 0 ∷ []) ∷ replicate_bucket n

-- The constructor. Its test against buckets_.max_size(), an allocation failure more, is left out.
unfoldable pub new_filter : ℕ → ℕ → Option CuckooFilter
unfolding replicate_bucket
new_filter requested_bucket_count maximum_kicks =
    elim (normalize_bucket_count requested_bucket_count) [
      | none ↦ none
      | some bucket_count ↦
          if ltb ((word - 1) / fps_per_bucket) bucket_count
          then none
          else some (record {
            buckets = replicate_bucket bucket_count;
            size = 0;
            maximum_kicks = maximum_kicks;
            rng_state = splitmix64 (bit_xor bucket_count 0xD1B54A32D192ED03);
            last_failure = no_failure;
          })
    ]

unfoldable pub calc_fp : ℕ → ℕ
calc_fp hash = hash / 2 ^ 48 % 2 ^ 16 % max_fingerprint_value + 1

unfoldable pub alternate_index : ℕ → ℕ → ℕ → ℕ
alternate_index bucket_count index fingerprint =
    let delta : ℕ = bit_and (splitmix64 fingerprint) (bucket_count - 1) in
    bit_xor index (if delta == 0 then 1 else delta)

unfoldable pub bucket_at : List Bucket → ℕ → Bucket
bucket_at buckets index = elim (get_elem? buckets index) [ none ↦ [] | some bucket ↦ bucket ]

unfoldable pub slot_at : Bucket → ℕ → ℕ
slot_at bucket slot = elim (get_elem? bucket slot) [ none ↦ 0 | some fingerprint ↦ fingerprint ]

unfoldable pub set_slot : List Bucket → ℕ → ℕ → ℕ → List Bucket
set_slot buckets index slot fingerprint =
    set buckets index (set (bucket_at buckets index) slot fingerprint)

-- std::find over the slots of a bucket.
unfoldable pub holds : Bucket → ℕ → Bool
holds [] fingerprint = false
holds (slot ∷ slots) fingerprint = slot == fingerprint || holds slots fingerprint

unfoldable pub find_fp : List Bucket → ℕ → ℕ → Bool
find_fp buckets index fingerprint =
    holds (bucket_at buckets index) fingerprint
    || holds (bucket_at buckets (alternate_index (length buckets) index fingerprint)) fingerprint

unfoldable pub empty_from : ℕ → Bucket → Option ℕ
empty_from slot [] = none
empty_from slot (fingerprint ∷ rest) =
    let later = empty_from (slot + 1) rest in if fingerprint == 0 then some slot else later

unfoldable pub find_empty_slot : List Bucket → ℕ → Option ℕ
unfolding empty_from
find_empty_slot buckets index = empty_from 0 (bucket_at buckets index)

-- The history is undone from its last record to its first.
unfoldable pub undo : List KickRecord → List Bucket → List Bucket
undo [] buckets = buckets
undo (r ∷ later) buckets = undo later (set_slot buckets r.bucket_index r.slot_index r.previous)

-- The loop of `kick_out` over the kicks left; the history has its last record in front.
unfoldable pub kick_loop : ℕ → CuckooFilter → ℕ → ℕ → List KickRecord → CuckooFilter × Bool
kick_loop zero f victim_index fingerprint history =
    (record f { buckets = undo history f.buckets }, false)
kick_loop (suc kicks) f victim_index fingerprint history =
    let (random, state) = next_rand_u64 f.rng_state in
    let slot : ℕ = random % fps_per_bucket in
    let victim : ℕ = slot_at (bucket_at f.buckets victim_index) slot in
    let kicked : List Bucket = set_slot f.buckets victim_index slot fingerprint in
    let next : ℕ = alternate_index (length f.buckets) victim_index victim in
    elim (find_empty_slot kicked next) [
      | some empty_slot ↦ (
        record f {
          buckets = set_slot kicked next empty_slot victim;
          size = f.size + 1;
          rng_state = state;
        },
        true,
      )
      | none ↦
          kick_loop kicks (record f { buckets = kicked; rng_state = state }) next victim
            (record { bucket_index = victim_index; slot_index = slot; previous = victim } ∷ history)
    ]

unfoldable pub kick_out : CuckooFilter → ℕ → ℕ → CuckooFilter × Bool
kick_out f victim_index fingerprint = kick_loop f.maximum_kicks f victim_index fingerprint []

-- The tail of `insert`: both buckets are full.
unfoldable pub displace : CuckooFilter → ℕ → ℕ → ℕ → CuckooFilter × Bool
displace f index1 index2 fingerprint =
    let (random, state) = next_rand_u64 f.rng_state in
    let victim_index : ℕ = if bit_and random 1 == 0 then index1 else index2 in
    let (f', placed) = kick_out (record f { rng_state = state }) victim_index fingerprint in
    if placed
    then (f', true)
    else (record f' { rng_state = f.rng_state; last_failure = kick_limited }, false)

abbrev pub place : CuckooFilter → ℕ → ℕ → ℕ → CuckooFilter
place f index slot fingerprint = record f {
  buckets = set_slot f.buckets index slot fingerprint;
  size = f.size + 1;
}

-- `insert` behind the hash.
unfoldable pub insert_fp : CuckooFilter → ℕ → ℕ → CuckooFilter × Bool
insert_fp f0 index1 fingerprint =
    let f : CuckooFilter = record f0 { last_failure = no_failure } in
    let index2 : ℕ = alternate_index (length f.buckets) index1 fingerprint in
    if find_fp f.buckets index1 fingerprint
    then (f, true)
    else if leb (load_limit (length f.buckets * fps_per_bucket)) f.size
    then (record f { last_failure = load_limited }, false)
    else elim (find_empty_slot f.buckets index1) [
      | some slot ↦ (place f index1 slot fingerprint, true)
      | none ↦ elim (find_empty_slot f.buckets index2) [
        | some slot ↦ (place f index2 slot fingerprint, true)
        | none ↦ displace f index1 index2 fingerprint
      ]
    ]

module _ (hash : Bytes → ℕ) where
  unfoldable pub index_of : CuckooFilter → Bytes → ℕ
  index_of f item = bit_and (hash item) (length f.buckets - 1)

  unfoldable pub insert : CuckooFilter → Bytes → CuckooFilter × Bool
  insert f item = insert_fp f (index_of f item) (calc_fp (hash item))

  unfoldable pub contains : CuckooFilter → Bytes → Bool
  contains f item = find_fp f.buckets (index_of f item) (calc_fp (hash item))
