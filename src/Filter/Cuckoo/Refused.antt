-- ===== src/Filter/Cuckoo/Refused.antt =====
-- `undo`, and `insert` where it refuses an item.
use dns_pro.Base.{
  set_twice, ℕ, zero, suc, ◌*◌, ◌<◌, ◌≡◌, refl, sym, ap, ◌∙◌, inl, inr, Bool, true, false, some,
  List, [], ◌∷◌, arith, leb, Bool-cases, Option-cases, length, get_elem?, set,
}
use dns_pro.Protocol.Wire.{Bytes}
use dns_pro.Filter.Cuckoo.{
  Bucket, CuckooFilter, KickRecord, bucket_at, slot_at, set_slot, find_fp, find_empty_slot,
  alternate_index, calc_fp, next_rand_u64, undo, kick_loop, kick_out, displace, place, insert_fp,
  insert, no_failure, load_limit, index_of, fps_per_bucket,
}
use dns_pro.Filter.Cuckoo.Index.{alternate_index-lt, index_of-lt}
use dns_pro.Filter.Cuckoo.Buckets.{length-set_slot}
use dns_pro.Filter.Cuckoo.Kicks.{
  IsTable, set_slot-IsTable, random_slot, victim_of, kicked, next_index, after_kick, kick_record,
  next_index-lt, kick_loop-placed, kick_loop-full,
}
use dns_pro.Filter.Cuckoo.Insert.{or_undone, start_of, start_cases}
use dns_pro.Filter.Cuckoo.{kick_limited, load_limited}
use dns_pro.Filter.Cuckoo.Buckets.{set-set_back, bucket_at-set}
use dns_pro.Protocol.Wire.Reads.{get_elem?-lt}

get_elem?-bucket_at :
    (buckets : List Bucket) (i : ℕ)
    → i < length buckets
    → get_elem? buckets i ≡ some (bucket_at buckets i)
unfolding bucket_at
get_elem?-bucket_at buckets i h = let (b, found) = get_elem?-lt buckets i h in ground (arith, found)

get_elem?-slot_at : (b : Bucket) (s : ℕ) → s < length b → get_elem? b s ≡ some (slot_at b s)
unfolding slot_at
get_elem?-slot_at b s h = let (x, found) = get_elem?-lt b s h in ground (arith, found)

set_same :
    (buckets : List Bucket) (i : ℕ) (b : Bucket)
    → get_elem? buckets i ≡ some b
    → set buckets i b ≡ buckets
set_same [] i b e = refl
set_same (d ∷ buckets) zero b e = ground (arith, e)
set_same (d ∷ buckets) (suc i) b e = ap (◌∷◌ d) (set_same buckets i b e)

-- Putting a victim back undoes the kick.
set_slot_back :
    (buckets : List Bucket) (v s x : ℕ)
    → v < length buckets
    → s < length (bucket_at buckets v)
    → set_slot (set_slot buckets v s x) v s (slot_at (bucket_at buckets v) s) ≡ buckets
unfolding set_slot
set_slot_back buckets v s x inside hs =
    let b : Bucket = bucket_at buckets v in
    let written : bucket_at (set buckets v (set b s x)) v ≡ set b s x =
      bucket_at-set buckets v v (set b s x) inside ∙ ground arith in
    ap (λ c. set (set buckets v (set b s x)) v (set c s (slot_at b s))) written
    ∙ set_twice buckets v (set b s x) (set (set b s x) s (slot_at b s))
    ∙ ap (set buckets v) (set-set_back b s x (slot_at b s) (get_elem?-slot_at b s hs))
    ∙ set_same buckets v b (get_elem?-bucket_at buckets v inside)

-- What a refused insertion leaves as it was.
pub record IsUnchanged (before after : CuckooFilter) : Type 0 where
  pub same_buckets : after.buckets ≡ before.buckets
  pub same_size : after.size ≡ before.size
  pub same_rng_state : after.rng_state ≡ before.rng_state

undo-kick :
    (f : CuckooFilter) (v x : ℕ) (history : List KickRecord)
    → IsTable f.buckets
    → v < length f.buckets
    → undo (kick_record f v ∷ history) (kicked f v x) ≡ undo history f.buckets
unfolding undo
undo-kick f v x history t inside =
    ap (undo history)
      (set_slot_back f.buckets v (random_slot f) x inside (omega (arith, t.four_slots v inside)))

kick_loop-undone :
    (kicks : ℕ) (f f' : CuckooFilter) (v x : ℕ) (history : List KickRecord)
    → IsTable f.buckets
    → v < length f.buckets
    → kick_loop kicks f v x history ≡ (f', false)
    → (f'.buckets ≡ undo history f.buckets) × (f'.size ≡ f.size)
unfolding kick_loop
kick_loop-undone zero f f' v x history t inside e = (
  sym (ap (λ (r : CuckooFilter × Bool). r.0.buckets) e),
  sym (ap (λ (r : CuckooFilter × Bool). r.0.size) e),
)
kick_loop-undone (suc kicks) f f' v x history t inside e =
    let t' = set_slot-IsTable f.buckets v (random_slot f) x inside t in
    let next : next_index f v < length (kicked f v x) =
      omega (arith, next_index-lt f v x t inside, length-set_slot f.buckets v (random_slot f) x) in
    elim (Option-cases (find_empty_slot (kicked f v x) (next_index f v))) [
      | inl full ↦
          let (b, size) =
            kick_loop-undone kicks (after_kick f v x) f' (next_index f v) (victim_of f v)
              (kick_record f v ∷ history) t' next
              (sym (kick_loop-full kicks f v x history full) ∙ e) in
          (b ∙ undo-kick f v x history t inside, size)
      | inr (slot, found) ↦ absurd (
          ground (
            arith,
            ap (λ (r : CuckooFilter × Bool). r.1)
                (sym (kick_loop-placed kicks f v x history slot found) ∙ e),
          ))
    ]

undone-eq :
    (r : CuckooFilter × Bool) (g f' : CuckooFilter)
    → or_undone r g ≡ (f', false)
    → (r ≡ (r.0, false)) × (g ≡ f')
undone-eq (a, true) g f' e = absurd (ground (arith, ap (λ (r : CuckooFilter × Bool). r.1) e))
undone-eq (a, false) g f' e = (refl, ap (λ (r : CuckooFilter × Bool). r.0) e)

displace-IsUnchanged :
    (f f' : CuckooFilter) (index1 index2 x : ℕ)
    → IsTable f.buckets
    → start_of f index1 index2 < length f.buckets
    → displace f index1 index2 x ≡ (f', false)
    → IsUnchanged f f'
unfolding displace kick_out undo
displace-IsUnchanged f f' index1 index2 x t inside e =
    let start : CuckooFilter = record f { rng_state = (next_rand_u64 f.rng_state).1 } in
    let run : CuckooFilter × Bool =
      kick_loop f.maximum_kicks start (start_of f index1 index2) x [] in
    let (failed, is) =
      undone-eq run (record run.0 { rng_state = f.rng_state; last_failure = kick_limited }) f' e in
    let (b, size) =
      kick_loop-undone f.maximum_kicks start run.0 (start_of f index1 index2) x [] t inside
        failed in
    record {
      same_buckets = sym (ap (λ (g : CuckooFilter). g.buckets) is) ∙ b;
      same_size = sym (ap (λ (g : CuckooFilter). g.size) is) ∙ size;
      same_rng_state = sym (ap (λ (g : CuckooFilter). g.rng_state) is);
    }

returned : (g f' : CuckooFilter) → ◌≡◌ {A = CuckooFilter × Bool} (g, false) (f', false) → g ≡ f'
returned g f' e = ap (λ (r : CuckooFilter × Bool). r.0) e

never : (g f' : CuckooFilter) → ◌≡◌ {A = CuckooFilter × Bool} (g, true) (f', false) → ⊥
never g f' e = ground (arith, ap (λ (r : CuckooFilter × Bool). r.1) e)

insert_fp-IsUnchanged :
    (f0 f' : CuckooFilter) (index1 x : ℕ)
    → IsTable f0.buckets
    → index1 < length f0.buckets
    → insert_fp f0 index1 x ≡ (f', false)
    → IsUnchanged f0 f'
unfolding insert_fp
insert_fp-IsUnchanged f0 f' index1 x t in1 e =
    let f : CuckooFilter = record f0 { last_failure = no_failure } in
    let index2 : ℕ = alternate_index (length f0.buckets) index1 x in
    let in2 : index2 < length f0.buckets =
      ground (arith, t.size, alternate_index-lt t.bits index1 x t.some_bit) in
    elim (Bool-cases (find_fp f0.buckets index1 x)) [
      | inl found ↦ absurd (never f f' (ground (arith, found, e)))
      | inr absent ↦
          elim (Bool-cases (leb (load_limit (length f0.buckets * fps_per_bucket)) f0.size)) [
            | inl limited ↦
                let is =
                  returned (record f { last_failure = load_limited }) f'
                    (ground (arith, absent, limited, e)) in
                record {
                  same_buckets = sym (ap (λ (g : CuckooFilter). g.buckets) is);
                  same_size = sym (ap (λ (g : CuckooFilter). g.size) is);
                  same_rng_state = sym (ap (λ (g : CuckooFilter). g.rng_state) is);
                }
            | inr room ↦ elim (Option-cases (find_empty_slot f0.buckets index1)) [
              | inr (slot, free) ↦
                  absurd (never (place f index1 slot x) f' (ground (arith, absent, room, free, e)))
              | inl full1 ↦ elim (Option-cases (find_empty_slot f0.buckets index2)) [
                | inr (slot, free) ↦ absurd (
                    never (place f index2 slot x) f' (ground (arith, absent, room, full1, free, e)))
                | inl full2 ↦
                    let inside : start_of f index1 index2 < length f0.buckets =
                      elim (start_cases f index1 index2) [
                        | inl e1 ↦ omega arith
                        | inr e2 ↦ omega arith
                      ] in
                    let same =
                      displace-IsUnchanged f f' index1 index2 x t inside
                        (ground (arith, absent, room, full1, full2, e)) in
                    record {
                      same_buckets = same.same_buckets;
                      same_size = same.same_size;
                      same_rng_state = same.same_rng_state;
                    }
              ]
            ]
          ]
    ]

-- An insertion that returns false, into a table of 2 ^ k buckets of four slots, leaves every bucket,
-- the size and the state of the random numbers as they were, also after any number of kicks.
pub insert-IsUnchanged :
    (hash : Bytes → ℕ) (f f' : CuckooFilter) (item : Bytes)
    → IsTable f.buckets
    → insert hash f item ≡ (f', false)
    → IsUnchanged f f'
unfolding insert
insert-IsUnchanged hash f f' item t e =
    insert_fp-IsUnchanged f f' (index_of hash f item) (calc_fp (hash item)) t
      (ground (arith, t.size, index_of-lt hash f t.bits item)) e
