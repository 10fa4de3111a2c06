-- ===== src/Cache/Shard/Clock.antt =====
-- The CLOCK hand of `put`.
use dns_pro.Base.{
  ℕ, zero, suc, ◌+◌, ◌-◌, ◌≤◌, ◌<◌, ◌≡◌, refl, ◌∙◌, inl, inr, Bool, true, false, Option, none, some,
  arith, ltb, Bool-cases, length, get_elem?, set, length-set, one_if, count, count-set,
  count-le-length, ok, Ensures, Ensures-mono,
}
use native.Mathlib.Nat.{mod-lt}
use dns_pro.Protocol.Wire.Reads.{get_elem?-lt}
use dns_pro.Cache.Shard.{
  CacheKey, CacheEntry, CacheShard, find, emplace, drop_key, replace_slot, evictable, clear_chance,
  next_hand, pass_hand, clock_loop, put_new,
}
use dns_pro.Cache.Shard.Invariant.{IsShard, entry_key, is_live, set-IsShard}
use dns_pro.Cache.Shard.Lookup.{view, peek, peek-set_same}
use dns_pro.Cache.Shard.Stored.{Stored, Stored-before, replace-Stored, append-Stored}

abbrev has_chance : Option CacheEntry → Bool
has_chance none = false
has_chance (some entry) = entry.chance

replace_slot_lem :
    (shard : CacheShard) (i : ℕ) (old : Option CacheEntry) (entry : CacheEntry)
    → get_elem? shard.entries i ≡ some old
    → replace_slot shard i entry
      ≡ ok (record shard {
        entries = set shard.entries i (some entry);
        index = emplace (drop_key shard.index old) entry.key i;
      })
unfolding replace_slot
replace_slot_lem shard i old entry at = rw (at, replace_slot) refl

-- The hand may move anywhere inside.
Stored-hand :
    (before after : CacheShard) (entry : CacheEntry) (hand : ℕ)
    → hand ≤ after.capacity - 1
    → Stored before entry after
    → Stored before entry (record after { hand = hand })
unfolding peek
Stored-hand before after entry hand inside h = record {
  valid = record {
    fits = h.valid.fits;
    hand_inside = inside;
    distinct = h.valid.distinct;
    sized = h.valid.sized;
    leads = h.valid.leads;
    knows = h.valid.knows;
  };
  same_capacity = h.same_capacity;
  stored = h.stored;
  others = h.others;
}

next_hand-inside : (shard : CacheShard) → 0 < shard.capacity → next_hand shard ≤ shard.capacity - 1
next_hand-inside shard pos = omega (arith, mod-lt (shard.hand + 1) pos)

clear_key : (slot : Option CacheEntry) → entry_key (clear_chance slot) ≡ entry_key slot
unfolding clear_chance
clear_key none = refl
clear_key (some entry) = refl

clear_life : (slot : Option CacheEntry) → is_live (clear_chance slot) ≡ is_live slot
unfolding clear_chance
clear_life none = refl
clear_life (some entry) = refl

clear_view : (slot : Option CacheEntry) → view (clear_chance slot) ≡ view slot
unfolding clear_chance
clear_view none = refl
clear_view (some entry) = refl

cleared : (slot : Option CacheEntry) → one_if (has_chance (clear_chance slot)) ≡ 0
unfolding clear_chance
cleared none = refl
cleared (some entry) = refl

kept_chance :
    (now : ℕ) (slot : Option CacheEntry) → evictable now slot ≡ false → one_if (has_chance slot) ≡ 1
unfolding evictable
kept_chance now none h = absurd (ground (arith, h))
kept_chance now (some entry) h = ground (arith, h)

-- A slot that the hand passes loses its chance, and nothing else.
module _ (shard : CacheShard) (slot : Option CacheEntry) (v : IsShard shard)
    (pos : 0 < shard.capacity) (at : get_elem? shard.entries shard.hand ≡ some slot) where
  pass_hand-IsShard : IsShard (pass_hand shard slot)
  pass_hand-IsShard =
      set-IsShard shard shard.hand slot v at (clear_chance slot) (next_hand shard) (clear_key slot)
        (clear_life slot) (next_hand-inside shard pos)

  peek-pass_hand : (key : CacheKey) → peek (pass_hand shard slot) key ≡ peek shard key
  peek-pass_hand key =
      peek-set_same shard shard.hand slot (clear_chance slot) (next_hand shard) key at
        (clear_view slot)

  count-pass_hand :
      (now : ℕ)
      → evictable now slot ≡ false
      → count has_chance (pass_hand shard slot).entries + 1 ≡ count has_chance shard.entries
  count-pass_hand now kept = omega (
    arith,
    count-set has_chance shard.entries shard.hand slot (clear_chance slot) at,
    cleared slot,
    kept_chance now slot kept,
  )

abbrev replaced : CacheShard → Option CacheEntry → CacheEntry → CacheShard
replaced shard old entry = record shard {
  entries = set shard.entries shard.hand (some entry);
  index = emplace (drop_key shard.index old) entry.key shard.hand;
}

module _ (fuel : ℕ) (shard : CacheShard) (now : ℕ) (entry : CacheEntry) (slot : Option CacheEntry)
    (at : get_elem? shard.entries shard.hand ≡ some slot) where
  clock_loop-evicts :
      evictable now slot ≡ true
      → clock_loop (suc fuel) shard now entry
        ≡ ok (record (replaced shard slot entry) { hand = next_hand shard })
  unfolding clock_loop
  clock_loop-evicts free = ground (arith, at, free, replace_slot_lem shard shard.hand slot entry at)

  clock_loop-passes :
      evictable now slot ≡ false
      → clock_loop (suc fuel) shard now entry ≡ clock_loop fuel (pass_hand shard slot) now entry
  unfolding clock_loop
  clock_loop-passes kept = ground (arith, at, kept)

clock_loop-Stored :
    (fuel : ℕ) (shard : CacheShard) (now : ℕ) (entry : CacheEntry)
    → IsShard shard
    → 0 < shard.capacity
    → length shard.entries ≡ shard.capacity
    → find shard.index entry.key ≡ none
    → count has_chance shard.entries < fuel
    → Ensures (Stored shard entry) (clock_loop fuel shard now entry)
clock_loop-Stored zero shard now entry v pos full absent enough = absurd (omega arith)
clock_loop-Stored (suc fuel) shard now entry v pos full absent enough =
    let (slot, at) = get_elem?-lt shard.entries shard.hand (omega (arith, v.hand_inside)) in
    elim (Bool-cases (evictable now slot)) [
      | inl free ↦ rw (clock_loop-evicts fuel shard now entry slot at free) (
          Stored-hand shard (replaced shard slot entry) entry (next_hand shard)
            (next_hand-inside shard pos) (replace-Stored shard shard.hand slot entry v at absent))
      | inr kept ↦
          let rest =
            clock_loop-Stored fuel (pass_hand shard slot) now entry
              (pass_hand-IsShard shard slot v pos at) pos
              (length-set shard.entries shard.hand (clear_chance slot) ∙ full) absent
              (omega (arith, count-pass_hand shard slot v pos at now kept)) in
          rw (clock_loop-passes fuel shard now entry slot at kept) (
            Ensures-mono (Stored (pass_hand shard slot) entry) (Stored shard entry)
              (clock_loop fuel (pass_hand shard slot) now entry) rest
              (λ after h.
                Stored-before shard (pass_hand shard slot) entry after refl
                  (λ other _. inl (peek-pass_hand shard slot v pos at other)) h))
    ]

-- What `put` promises where it stores.
pub put_new-Stored :
    (shard : CacheShard) (now : ℕ) (entry : CacheEntry)
    → IsShard shard
    → 0 < shard.capacity
    → find shard.index entry.key ≡ none
    → Ensures (Stored shard entry) (put_new shard now entry)
unfolding put_new
put_new-Stored shard now entry v pos absent =
    elim (Bool-cases (ltb (length shard.entries) shard.capacity)) [
      | inl room ↦ rw room (append-Stored shard entry v (ground (arith, room)) absent)
      | inr full ↦
          let at_capacity : length shard.entries ≡ shard.capacity = ground (arith, full, v.fits) in
          rw full (
            clock_loop-Stored (shard.capacity + 1) shard now entry v pos at_capacity absent
              (omega (arith, count-le-length has_chance shard.entries)))
    ]
