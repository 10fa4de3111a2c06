-- ===== src/Cache/Shard/Put.antt =====
-- What `put` makes of a shard, and what `get` answers then.
use dns_pro.Base.{
  ℕ, ◌+◌, ◌*◌, ◌<◌, ◌≡◌, refl, sym, ap, ◌∙◌, ◌≢◌, ◌⊎◌, inl, inr, ◌||◌, Option, none, some, List,
  arith, ◌==◌, if◌then◌else◌, Bool-cases, Option-cases, length, Ensures, Ensures-mono,
}
use dns_pro.Cache.Policy.{IpAddress}
use dns_pro.Cache.Shard.{
  CacheKey, CacheShard, find, fresh_entry, put_nothing, put_entry, put, nanoseconds,
}
use dns_pro.Cache.Shard.Slots.{key_eq_iff}
use dns_pro.Cache.Shard.Invariant.{IsShard, slot_key-inside, forget-IsShard}
use dns_pro.Cache.Shard.Lookup.{peek, find-entry, peek-forget, peek-absent}
use dns_pro.Cache.Shard.Stored.{Stored, update_slot-Stored}
use dns_pro.Cache.Shard.Clock.{put_new-Stored}

-- What is stored for a key: nothing without an address or a time to live.
abbrev pub stored_of : List IpAddress → ℕ → ℕ → Option (List IpAddress × ℕ)
stored_of addresses ttl_seconds now =
    if ttl_seconds == 0 || length addresses == 0
    then none
    else some (addresses, now + ttl_seconds * nanoseconds)

-- The outcome of a `put`.
pub record WasPut (before : CacheShard) (key : CacheKey) (stored : Option (List IpAddress × ℕ))
    (after : CacheShard) : Type 0 where
  pub valid : IsShard after
  pub same_capacity : after.capacity ≡ before.capacity
  pub answer : peek after key ≡ (if before.capacity == 0 then none else stored)
  pub others :
      (other : CacheKey)
      → other ≢ key
      → (peek after other ≡ peek before other) ⊎ (peek after other ≡ none)

peek-no_capacity :
    (shard : CacheShard) (key : CacheKey)
    → IsShard shard
    → shard.capacity ≡ 0
    → peek shard key ≡ none
peek-no_capacity shard key v zero_capacity = elim (Option-cases (find shard.index key)) [
  | inl absent ↦ peek-absent shard key absent
  | inr (i, e) ↦
      absurd (omega (arith, slot_key-inside shard.entries i key (v.leads key i e), v.fits))
]

put_nothing-WasPut :
    (shard : CacheShard) (key : CacheKey)
    → IsShard shard
    → Ensures (WasPut shard key none) (put_nothing shard key)
unfolding put_nothing
put_nothing-WasPut shard key v = elim (Option-cases (find shard.index key)) [
  | inl absent ↦
      rw (absent, put_nothing)
        (record {
          valid = v;
          same_capacity = refl;
          answer = peek-absent shard key absent ∙ ground arith;
          others = λ other differs. inl refl;
        })
  | inr (i, e) ↦
      let (entry, at, is_key) = find-entry shard key i v e in
      rw (e, at, put_nothing)
        (record {
          valid = forget-IsShard shard i (some entry) v at key (ap some is_key);
          same_capacity = refl;
          answer = peek-forget shard key key i v e ∙ ground (arith, key_eq_iff key key);
          others = λ other differs. inl (
              peek-forget shard key other i v e
              ∙ ground (arith, key_eq_iff key other, λ (same : key ≡ other). differs (sym same)));
        })
]

put_entry-Stored :
    (shard : CacheShard) (key : CacheKey) (addresses : List IpAddress) (expiry now : ℕ)
    → IsShard shard
    → 0 < shard.capacity
    → Ensures
        (Stored shard (fresh_entry key addresses expiry))
        (put_entry shard key addresses expiry now)
unfolding put_entry
put_entry-Stored shard key addresses expiry now v pos = elim (Option-cases (find shard.index key)) [
  | inl absent ↦
      rw (absent, put_entry)
        (put_new-Stored shard now (fresh_entry key addresses expiry) v pos absent)
  | inr (i, e) ↦
      let (entry, at, is_key) = find-entry shard key i v e in
      rw (e, at, put_entry) (update_slot-Stored shard i entry key addresses expiry v e at is_key)
]

-- On a shard whose index agrees with its slots, `put` returns, CLOCK loop included, and the shard
-- stays one. The shard then has for the key the addresses with their expiry, or nothing when there is
-- no address, no time to live or no capacity; for any other key it has what it had, or nothing.
pub put-WasPut :
    (shard : CacheShard) (key : CacheKey) (addresses : List IpAddress) (ttl_seconds now : ℕ)
    → IsShard shard
    → Ensures
        (WasPut shard key (stored_of addresses ttl_seconds now))
        (put shard key addresses ttl_seconds now)
unfolding put
put-WasPut shard key addresses ttl_seconds now v = elim (Bool-cases (shard.capacity == 0)) [
  | inl no_room ↦ rw no_room (record {
    valid = v;
    same_capacity = refl;
    answer = peek-no_capacity shard key v (ground (arith, no_room)) ∙ ground (arith, no_room);
    others = λ other differs. inl refl;
  })
  | inr room ↦ elim (Bool-cases (ttl_seconds == 0 || length addresses == 0)) [
    | inl nothing ↦
        rw (room, nothing)
          (Ensures-mono (WasPut shard key none) _ (put_nothing shard key)
            (put_nothing-WasPut shard key v)
            (λ after h. record {
              valid = h.valid;
              same_capacity = h.same_capacity;
              answer = h.answer ∙ ground (arith, room, nothing);
              others = h.others;
            }))
    | inr something ↦
        let expiry : ℕ = now + ttl_seconds * nanoseconds in
        rw (room, something)
          (Ensures-mono (Stored shard (fresh_entry key addresses expiry)) _
            (put_entry shard key addresses expiry now)
            (put_entry-Stored shard key addresses expiry now v (ground (arith, room)))
            (λ after h. record {
              valid = h.valid;
              same_capacity = h.same_capacity;
              answer = h.stored ∙ ground (arith, room, something);
              others = h.others;
            }))
  ]
]
