-- ===== src/Cache/Shard/Stored.antt =====
-- Storing an entry: in a slot that is empty, in one that gives way, in a new one, or over the old.
use dns_pro.Base.{
  ℕ, ◌<◌, ◌≡◌, refl, sym, ◌∙◌, subst, ◌≢◌, ◌⊎◌, inl, inr, Bool, true, false, Option, none, some,
  List, [], ◌∷◌, ◌++◌, arith, Option-cases, length, get_elem?, set, set_twice, get_elem?-set,
  lt-get_elem?, Ensures,
}
use dns_pro.Cache.Policy.{IpAddress}
use dns_pro.Cache.Shard.{
  CacheKey, CacheEntry, CacheShard, Slots, key_eq, find, erase, emplace, forget, fresh_entry,
  drop_key, update_slot,
}
use dns_pro.Cache.Shard.Slots.{key_eq_iff, find-erase, find-emplace}
use dns_pro.Cache.Shard.Invariant.{
  IsShard, slot_key-at, set-IsShard, forget-IsShard, fill-IsShard, append-IsShard,
}
use dns_pro.Cache.Shard.Lookup.{peek, slot_view-set, slot_view-append_one, find-entry, peek-forget}

-- What storing an entry makes of a shard: its key leads to it, and every other key to what it led
-- to, or to nothing.
pub record Stored (before : CacheShard) (entry : CacheEntry) (after : CacheShard) : Type 0 where
  pub valid : IsShard after
  pub same_capacity : after.capacity ≡ before.capacity
  pub stored : peek after entry.key ≡ some (entry.addresses, entry.expiry)
  pub others :
      (other : CacheKey)
      → other ≢ entry.key
      → (peek after other ≡ peek before other) ⊎ (peek after other ≡ none)

-- Filling an empty slot adds to the map.
pub fill-Stored :
    (shard : CacheShard) (i : ℕ) (entry : CacheEntry)
    → IsShard shard
    → get_elem? shard.entries i ≡ some none
    → find shard.index entry.key ≡ none
    → Stored shard entry (record shard {
      entries = set shard.entries i (some entry);
      index = emplace shard.index entry.key i;
    })
unfolding peek
fill-Stored shard i entry v at absent =
    let h = lt-get_elem? shard.entries i none at in
    let key : CacheKey = entry.key in
    record {
      valid = fill-IsShard shard i entry v at absent;
      same_capacity = refl;
      stored = ground (
        arith,
        find-emplace shard.index key key i absent,
        key_eq_iff key key,
        slot_view-set shard.entries i i (some entry) h,
      );
      others = λ other differs. inl (elsewhere other differs);
    }
  where
    elsewhere :
        (other : CacheKey)
        → other ≢ entry.key
        → peek
            (record shard {
              entries = set shard.entries i (some entry);
              index = emplace shard.index entry.key i;
            })
            other
          ≡ peek shard other
    elsewhere other differs = elim (Option-cases (find shard.index other)) [
      | inl missing ↦ ground (
        arith,
        missing,
        find-emplace shard.index entry.key other i absent,
        key_eq_iff entry.key other,
        λ (e : entry.key ≡ other). differs (sym e),
      )
      | inr (j, f) ↦
          let (held, at_j, _) = find-entry shard other j v f in
          let apart : i ≢ j = λ e. ground (arith, at, at_j, e) in
          ground (
            arith,
            f,
            find-emplace shard.index entry.key other i absent,
            key_eq_iff entry.key other,
            λ (e : entry.key ≡ other). differs (sym e),
            apart,
            slot_view-set shard.entries i j (some entry) (lt-get_elem? shard.entries i none at),
          )
    ]

-- A shard with the same map, or less, before.
pub Stored-before :
    (before middle : CacheShard) (entry : CacheEntry) (after : CacheShard)
    → middle.capacity ≡ before.capacity
    → ((other : CacheKey)
        → other ≢ entry.key
        → (peek middle other ≡ peek before other) ⊎ (peek middle other ≡ none))
    → Stored middle entry after
    → Stored before entry after
Stored-before before middle entry after same less h = record {
  valid = h.valid;
  same_capacity = h.same_capacity ∙ same;
  stored = h.stored;
  others = λ other differs. elim (h.others other differs) [
    | inr gone ↦ inr gone
    | inl kept ↦ elim (less other differs) [ inl e ↦ inl (kept ∙ e) | inr gone ↦ inr (kept ∙ gone) ]
  ];
}

-- The replaced slot's key leaves the map, and the entry's key comes.
pub replace-Stored :
    (shard : CacheShard) (i : ℕ) (old : Option CacheEntry) (entry : CacheEntry)
    → IsShard shard
    → get_elem? shard.entries i ≡ some old
    → find shard.index entry.key ≡ none
    → Stored shard entry (record shard {
      entries = set shard.entries i (some entry);
      index = emplace (drop_key shard.index old) entry.key i;
    })
unfolding drop_key
replace-Stored shard i none entry v at absent = fill-Stored shard i entry v at absent
replace-Stored shard i (some held) entry v at absent =
    let emptied : CacheShard = forget shard held.key i in
    let valid = forget-IsShard shard i (some held) v at held.key refl in
    let here : find shard.index held.key ≡ some i =
      v.knows held.key i (slot_key-at shard.entries i (some held) at) in
    let empty : get_elem? (set shard.entries i none) i ≡ some none =
      get_elem?-set shard.entries i i none (lt-get_elem? shard.entries i (some held) at)
      ∙ ground arith in
    let still : find (erase shard.index held.key) entry.key ≡ none =
      ground (arith, find-erase shard.index held.key entry.key, absent) in
    let filled = fill-Stored emptied i entry valid empty still in
    subst
      (λ (entries : Slots). Stored shard entry (record shard {
        entries = entries;
        index = emplace (erase shard.index held.key) entry.key i;
      }))
      (set_twice shard.entries i none (some entry))
      (Stored-before shard emptied entry _ refl (λ other _. less other (key_eq held.key other) refl)
        filled)
  where
    less :
        (other : CacheKey) (b : Bool)
        → key_eq held.key other ≡ b
        → (peek (forget shard held.key i) other ≡ peek shard other)
          ⊎ (peek (forget shard held.key i) other ≡ none)
    less other true e = inr (
        peek-forget shard held.key other i v
          (v.knows held.key i (slot_key-at shard.entries i (some held) at))
        ∙ ground (arith, e))
    less other false e = inl (
        peek-forget shard held.key other i v
          (v.knows held.key i (slot_key-at shard.entries i (some held) at))
        ∙ ground (arith, e))

pub append-Stored :
    (shard : CacheShard) (entry : CacheEntry)
    → IsShard shard
    → length shard.entries < shard.capacity
    → find shard.index entry.key ≡ none
    → Stored shard entry (record shard {
      entries = shard.entries ++ some entry ∷ [];
      index = emplace shard.index entry.key (length shard.entries);
    })
unfolding peek
append-Stored shard entry v room absent =
    let n = length shard.entries in
    record {
      valid = append-IsShard shard entry v room absent;
      same_capacity = refl;
      stored = ground (
        arith,
        find-emplace shard.index entry.key entry.key n absent,
        key_eq_iff entry.key entry.key,
        slot_view-append_one shard.entries (some entry) n,
      );
      others = λ other differs. inl (elsewhere other differs);
    }
  where
    elsewhere :
        (other : CacheKey)
        → other ≢ entry.key
        → peek
            (record shard {
              entries = shard.entries ++ some entry ∷ [];
              index = emplace shard.index entry.key (length shard.entries);
            })
            other
          ≡ peek shard other
    elsewhere other differs = elim (Option-cases (find shard.index other)) [
      | inl missing ↦ ground (
        arith,
        missing,
        find-emplace shard.index entry.key other (length shard.entries) absent,
        key_eq_iff entry.key other,
        λ (e : entry.key ≡ other). differs (sym e),
      )
      | inr (j, f) ↦
          let (held, at_j, _) = find-entry shard other j v f in
          ground (
            arith,
            f,
            find-emplace shard.index entry.key other (length shard.entries) absent,
            key_eq_iff entry.key other,
            λ (e : entry.key ≡ other). differs (sym e),
            lt-get_elem? shard.entries j (some held) at_j,
            slot_view-append_one shard.entries (some entry) j,
          )
    ]

-- A key that is there gets new addresses and a new expiry.
pub update_slot-Stored :
    (shard : CacheShard) (i : ℕ) (old : CacheEntry) (key : CacheKey) (addresses : List IpAddress)
    (expiry : ℕ)
    → IsShard shard
    → find shard.index key ≡ some i
    → get_elem? shard.entries i ≡ some (some old)
    → old.key ≡ key
    → Ensures
        (Stored shard (fresh_entry key addresses expiry))
        (update_slot shard addresses expiry i (some old))
unfolding update_slot peek
update_slot-Stored shard i old key addresses expiry v e at is_key =
    let slot : Option CacheEntry = some (fresh_entry old.key addresses expiry) in
    let h = lt-get_elem? shard.entries i (some old) at in
    record {
      valid = set-IsShard shard i (some old) v at slot shard.hand refl refl v.hand_inside;
      same_capacity = refl;
      stored = ground (arith, e, slot_view-set shard.entries i i slot h);
      others = λ other differs. inl (elsewhere other differs);
    }
  where
    elsewhere :
        (other : CacheKey)
        → other ≢ key
        → peek
            (record shard {
              entries = set shard.entries i (some (fresh_entry old.key addresses expiry));
            })
            other
          ≡ peek shard other
    elsewhere other differs = elim (Option-cases (find shard.index other)) [
      | inl absent ↦ ground (arith, absent)
      | inr (j, f) ↦
          let (held, at_j, its_key) = find-entry shard other j v f in
          let apart : i ≢ j = λ same. differs (ground (arith, at, at_j, same, is_key, its_key)) in
          ground (
            arith,
            f,
            apart,
            slot_view-set shard.entries i j (some (fresh_entry old.key addresses expiry))
                (lt-get_elem? shard.entries i (some old) at),
          )
    ]
