-- ===== src/Cache/Shard/Runs.antt =====
-- Sequences of operations on a shard, against a map that forgets nothing.
use dns_pro.Base.{
  ℕ, ◌+◌, ◌*◌, ◌≤◌, ◌<◌, ◌≡◌, refl, sym, ap, ◌∙◌, ◌≢◌, ◌⊎◌, inl, inr, Option, none, some, List, [],
  ◌∷◌, arith, leb, ◌==◌, if◌then◌else◌, Bool-cases, length, Outcome, ok, ◌>>=◌, Ensures,
  Ensures-bind, Ensures-mono,
}
use dns_pro.Cache.Policy.{IpAddress}
use dns_pro.Cache.Shard.{
  CacheKey, CacheHit, CacheShard, key_eq, find, new_shard, get, put, nanoseconds, remaining_seconds,
  size,
}
use dns_pro.Cache.Shard.Slots.{key_eq_iff}
use dns_pro.Cache.Shard.Invariant.{IsShard, new_shard-IsShard, size-le-capacity}
use dns_pro.Cache.Shard.Lookup.{peek, peek-absent, unexpired, Got, get-Got, hit_of}
use dns_pro.Cache.Shard.Put.{stored_of, WasPut, put-WasPut}

pub data Operation : Type 0 where
  getting : CacheKey → ℕ → Operation
  putting : CacheKey → List IpAddress → ℕ → ℕ → Operation

unfoldable pub operate : Operation → CacheShard → Outcome ⊥ CacheShard
operate (getting key now) shard = get shard key now >>= λ r. ok r.1
operate (putting key addresses ttl_seconds now) shard = put shard key addresses ttl_seconds now

unfoldable pub operate_all : List Operation → CacheShard → Outcome ⊥ CacheShard
operate_all [] shard = ok shard
operate_all (operation ∷ operations) shard =
    operate operation shard >>= λ after. operate_all operations after

abbrev pub AddressMap : Type 0
AddressMap = CacheKey → Option (List IpAddress × ℕ)

-- The map without capacity and expiry: a `put` decides what its key has.
unfoldable pub latest : Operation → AddressMap → AddressMap
latest (getting key now) m other = m other
latest (putting key addresses ttl_seconds now) m other =
    if key_eq key other then stored_of addresses ttl_seconds now else m other

unfoldable pub latest_all : List Operation → AddressMap → AddressMap
latest_all [] m = m
latest_all (operation ∷ operations) m = latest_all operations (latest operation m)

-- The shard has what the map has, or nothing.
pub record Refines (capacity : ℕ) (m : AddressMap) (shard : CacheShard) : Type 0 where
  pub valid : IsShard shard
  pub same_capacity : shard.capacity ≡ capacity
  pub agrees : (key : CacheKey) → (peek shard key ≡ m key) ⊎ (peek shard key ≡ none)

unexpired-cases :
    (held : Option (List IpAddress × ℕ)) (now : ℕ)
    → (unexpired held now ≡ held) ⊎ (unexpired held now ≡ none)
unexpired-cases none now = inl refl
unexpired-cases (some (addresses, expiry)) now = elim (Bool-cases (leb expiry now)) [
  | inl expired ↦ inr (ground (arith, expired))
  | inr alive ↦ inl (ground (arith, alive))
]

module _ (capacity : ℕ) (m : AddressMap) (shard : CacheShard) (h : Refines capacity m shard) where
  Got-Refines :
      (key : CacheKey) (now : ℕ) (r : Option CacheHit × CacheShard)
      → Got shard key now r
      → Refines capacity m r.1
  Got-Refines key now r g = record {
    valid = g.valid;
    same_capacity = g.same_capacity ∙ h.same_capacity;
    agrees = λ other. elim (Bool-cases (key_eq key other)) [
      | inl same ↦ elim (unexpired-cases (peek shard other) now) [
        | inl kept ↦ elim (h.agrees other) [
          | inl e ↦ inl (g.kept other ∙ ground (arith, same) ∙ kept ∙ e)
          | inr gone ↦ inr (g.kept other ∙ ground (arith, same) ∙ kept ∙ gone)
        ]
        | inr gone ↦ inr (g.kept other ∙ ground (arith, same) ∙ gone)
      ]
      | inr differs ↦ elim (h.agrees other) [
        | inl e ↦ inl (g.kept other ∙ ground (arith, differs) ∙ e)
        | inr gone ↦ inr (g.kept other ∙ ground (arith, differs) ∙ gone)
      ]
    ];
  }

  WasPut-Refines :
      (key : CacheKey) (addresses : List IpAddress) (ttl_seconds now : ℕ) (after : CacheShard)
      → WasPut shard key (stored_of addresses ttl_seconds now) after
      → Refines capacity (latest (putting key addresses ttl_seconds now) m) after
  unfolding latest
  WasPut-Refines key addresses ttl_seconds now after p = record {
    valid = p.valid;
    same_capacity = p.same_capacity ∙ h.same_capacity;
    agrees = λ other. elim (Bool-cases (key_eq key other)) [
      | inl same ↦ rw same (put_key other ((key_eq_iff key other).0 same))
      | inr differs ↦
          let apart : other ≢ key = λ e. ground (arith, differs, key_eq_iff key other, sym e) in
          rw differs (elim (p.others other apart) [
            | inl kept ↦ elim (h.agrees other) [
              | inl e ↦ inl (kept ∙ e)
              | inr gone ↦ inr (kept ∙ gone)
            ]
            | inr gone ↦ inr gone
          ])
    ];
  }
    where
      put_key :
          (other : CacheKey)
          → key ≡ other
          → (peek after other ≡ stored_of addresses ttl_seconds now) ⊎ (peek after other ≡ none)
      put_key other same = elim (Bool-cases (shard.capacity == 0)) [
        | inl empty ↦ inr (ap (peek after) (sym same) ∙ p.answer ∙ ground (arith, empty))
        | inr room ↦ inl (ap (peek after) (sym same) ∙ p.answer ∙ ground (arith, room))
      ]

  operate-Refines :
      (operation : Operation)
      → Ensures (Refines capacity (latest operation m)) (operate operation shard)
  unfolding operate latest
  operate-Refines (getting key now) =
      Ensures-bind (Got shard key now) _ (get shard key now) _ (get-Got shard key now h.valid)
        (λ r g. Got-Refines key now r g)
  operate-Refines (putting key addresses ttl_seconds now) =
      Ensures-mono _ _ (put shard key addresses ttl_seconds now)
        (put-WasPut shard key addresses ttl_seconds now h.valid)
        (WasPut-Refines key addresses ttl_seconds now)

operate_all-Refines :
    (capacity : ℕ) (operations : List Operation) (m : AddressMap) (shard : CacheShard)
    → Refines capacity m shard
    → Ensures (Refines capacity (latest_all operations m)) (operate_all operations shard)
unfolding operate_all latest_all
operate_all-Refines capacity [] m shard h = h
operate_all-Refines capacity (operation ∷ operations) m shard h =
    Ensures-bind (Refines capacity (latest operation m)) _ (operate operation shard) _
      (operate-Refines capacity m shard h operation)
      (λ after k. operate_all-Refines capacity operations (latest operation m) after k)

abbrev pub nothing_yet : AddressMap
nothing_yet key = none

-- After any sequence of operations on a new shard, which all return, the shard holds no more entries
-- than its capacity, and for each key it has what the last `put` of that key stored, or nothing: an
-- answer is never stale, nor another key's.
pub operate_all-new_shard :
    (capacity : ℕ) (operations : List Operation)
    → Ensures
        (λ shard.
          (size shard ≤ capacity)
          × IsShard shard
          × ((key : CacheKey)
              → (peek shard key ≡ latest_all operations nothing_yet key) ⊎ (peek shard key ≡ none)))
        (operate_all operations (new_shard capacity))
operate_all-new_shard capacity operations =
    Ensures-mono (Refines capacity (latest_all operations nothing_yet)) _
      (operate_all operations (new_shard capacity))
      (operate_all-Refines capacity operations nothing_yet (new_shard capacity) (record {
        valid = new_shard-IsShard capacity;
        same_capacity = refl;
        agrees = λ key. inl (peek-absent (new_shard capacity) key (unfold find in refl));
      }))
      (λ shard h.
        (omega (arith, size-le-capacity shard h.valid, h.same_capacity), h.valid, h.agrees))

-- What `get` answers for a key at a time after a `put` of it: the addresses, before they expire, with
-- the seconds left rounded up; and no answer from then on.
pub get-put :
    (shard : CacheShard) (key : CacheKey) (addresses : List IpAddress) (ttl_seconds now later : ℕ)
    → IsShard shard
    → 0 < shard.capacity
    → 0 < ttl_seconds
    → 0 < length addresses
    → Ensures
        (λ r. r.0 ≡ (
          if leb (now + ttl_seconds * nanoseconds) later
          then none
          else some (record {
            addresses = addresses;
            remaining_ttl = remaining_seconds (now + ttl_seconds * nanoseconds) later;
          })))
        (put shard key addresses ttl_seconds now >>= λ after. get after key later)
get-put shard key addresses ttl_seconds now later v room lives some_address =
    Ensures-bind (WasPut shard key (stored_of addresses ttl_seconds now)) _
      (put shard key addresses ttl_seconds now) _ (put-WasPut shard key addresses ttl_seconds now v)
      (λ after p.
        Ensures-mono (Got after key later) _ (get after key later) (get-Got after key later p.valid)
          (λ r g. g.answer ∙ ap (λ held. hit_of held later) (p.answer ∙ stored_here) ∙ refl))
  where
    stored_here :
        (if shard.capacity == 0 then none else stored_of addresses ttl_seconds now)
        ≡ some (addresses, now + ttl_seconds * nanoseconds)
    stored_here = ground (arith, room, lives, some_address)
