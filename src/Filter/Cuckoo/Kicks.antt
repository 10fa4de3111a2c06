-- ===== src/Filter/Cuckoo/Kicks.antt =====
-- Writes and kicks in the table, one after the other.
use dns_pro.Base.{
  length-set, ℕ, zero, suc, ◌+◌, ◌%◌, ◌^◌, ◌<◌, ◌≡◌, refl, sym, ap, ap₂, ◌∙◌, subst, inl, inr, true,
  false, none, some, List, ◌∷◌, arith, ◌==◌, ==_iff, Bool-cases, Option-cases, length,
}
use dns_pro.Filter.Cuckoo.{
  Bucket, CuckooFilter, KickRecord, bucket_at, slot_at, set_slot, find_fp, find_empty_slot,
  alternate_index, next_rand_u64, kick_loop, fps_per_bucket,
}
use dns_pro.Filter.Cuckoo.Index.{alternate_index_twice, alternate_index-lt}
use dns_pro.Filter.Cuckoo.Buckets.{
  length-set_slot, bucket_at-set_slot, empty_from-slot, Kept, set_slot-find_fp, find_fp-elsewhere,
}

-- A table of 2 ^ k buckets of four slots.
pub record IsTable (buckets : List Bucket) : Type 0 where
  pub bits : ℕ
  pub some_bit : 0 < bits
  pub size : length buckets ≡ 2 ^ bits
  pub four_slots : (j : ℕ) → j < length buckets → length (bucket_at buckets j) ≡ fps_per_bucket

pub set_slot-IsTable :
    (buckets : List Bucket) (i s x : ℕ)
    → i < length buckets
    → IsTable buckets
    → IsTable (set_slot buckets i s x)
set_slot-IsTable buckets i s x inside t = record {
  bits = t.bits;
  some_bit = t.some_bit;
  size = length-set_slot buckets i s x ∙ t.size;
  four_slots = λ j h.
      ap length (bucket_at-set_slot buckets i j s x inside)
      ∙ ground (
        arith,
        length-set_slot buckets i s x,
        h,
        length-set (bucket_at buckets i) s x,
        t.four_slots i,
        t.four_slots j,
      );
}

-- The round of `kick_loop`.
abbrev pub random_slot : CuckooFilter → ℕ
random_slot f = (next_rand_u64 f.rng_state).0 % fps_per_bucket

abbrev pub victim_of : CuckooFilter → ℕ → ℕ
victim_of f v = slot_at (bucket_at f.buckets v) (random_slot f)

abbrev pub kicked : CuckooFilter → ℕ → ℕ → List Bucket
kicked f v x = set_slot f.buckets v (random_slot f) x

abbrev pub next_index : CuckooFilter → ℕ → ℕ
next_index f v = alternate_index (length f.buckets) v (victim_of f v)

abbrev pub after_kick : CuckooFilter → ℕ → ℕ → CuckooFilter
after_kick f v x = record f { buckets = kicked f v x; rng_state = (next_rand_u64 f.rng_state).1 }

abbrev pub kick_record : CuckooFilter → ℕ → KickRecord
kick_record f v = record { bucket_index = v; slot_index = random_slot f; previous = victim_of f v }

pub kick_loop-placed :
    (kicks : ℕ) (f : CuckooFilter) (v x : ℕ) (history : List KickRecord) (e : ℕ)
    → find_empty_slot (kicked f v x) (next_index f v) ≡ some e
    → kick_loop (suc kicks) f v x history ≡ (
      record f {
        buckets = set_slot (kicked f v x) (next_index f v) e (victim_of f v);
        size = f.size + 1;
        rng_state = (next_rand_u64 f.rng_state).1;
      },
      true,
    )
unfolding kick_loop
kick_loop-placed kicks f v x history e found = rw (found, kick_loop) refl

pub kick_loop-full :
    (kicks : ℕ) (f : CuckooFilter) (v x : ℕ) (history : List KickRecord)
    → find_empty_slot (kicked f v x) (next_index f v) ≡ none
    → kick_loop (suc kicks) f v x history
      ≡ kick_loop kicks
          (after_kick f v x)
          (next_index f v)
          (victim_of f v)
          (kick_record f v ∷ history)
unfolding kick_loop
kick_loop-full kicks f v x history full = rw (full, kick_loop) refl

module _ (f : CuckooFilter) (v x : ℕ) (t : IsTable f.buckets) (inside : v < length f.buckets) where
  pub next_index-lt : next_index f v < length f.buckets
  next_index-lt = ground (arith, t.size, alternate_index-lt t.bits v (victim_of f v) t.some_bit)

  taken_out :
      (i y : ℕ)
      → Kept f.buckets x v i y
      → y ≡ victim_of f v
      → Kept (kicked f v x) (victim_of f v) (next_index f v) i y
  taken_out i y kept is =
      let n = length f.buckets in
      let alternate : ℕ = alternate_index n i y in
      let size = length-set_slot f.buckets v (random_slot f) x in
      elim (Bool-cases (v == i)) [
        | inl here ↦ inr (
          is,
          inr (
              ap₂ (alternate_index n) ((==_iff v i).0 here) (sym is)
              ∙ ap (λ m. alternate_index m i y) (sym size)),
        )
        | inr ni ↦ elim (Bool-cases (v == alternate)) [
          | inl there ↦ inr (
            is,
            inl (
                ap₂ (alternate_index n) ((==_iff v alternate).0 there) (sym is)
                ∙ alternate_index_twice n i y),
          )
          | inr na ↦ elim kept [
            | inl found ↦ inl (
                find_fp-elsewhere f.buckets v (random_slot f) x inside i y
                  (λ e. ground (arith, e, ni)) (λ e. ground (arith, e, na))
                ∙ found)
            | inr (_, inl here) ↦ absurd (ground (arith, here, ni))
            | inr (_, inr there) ↦ absurd (ground (arith, there, na))
          ]
        ]
      ]

  -- A kick loses nothing: what it takes out is on its way to its other bucket.
  Kept-kicked :
      (i y : ℕ) → Kept f.buckets x v i y → Kept (kicked f v x) (victim_of f v) (next_index f v) i y
  Kept-kicked i y kept = elim (Bool-cases (y == victim_of f v)) [
    | inl taken ↦ taken_out i y kept ((==_iff y (victim_of f v)).0 taken)
    | inr other ↦ inl (
        set_slot-find_fp f.buckets v (random_slot f) x inside i y
          (omega (arith, t.four_slots v inside)) (λ e. ground (arith, e, other)) kept)
  ]

-- What an accepted insertion has done to the table.
pub record IsInserted (before after : CuckooFilter) (v x : ℕ) : Type 0 where
  pub table : IsTable after.buckets
  pub same_size : length after.buckets ≡ length before.buckets
  pub keeps : (i y : ℕ) → 0 < y → Kept before.buckets x v i y → find_fp after.buckets i y ≡ true

find_empty_slot-lt :
    (buckets : List Bucket) (i e : ℕ)
    → find_empty_slot buckets i ≡ some e
    → (e < length (bucket_at buckets i)) × (slot_at (bucket_at buckets i) e ≡ 0)
unfolding find_empty_slot
find_empty_slot-lt buckets i e found =
    let (_, inside, free) = empty_from-slot (bucket_at buckets i) 0 e found in
    (omega arith, ap (slot_at (bucket_at buckets i)) (omega arith) ∙ free)

-- Writing a fingerprint into an empty slot.
pub set_slot-IsInserted :
    (f after : CuckooFilter) (v x e : ℕ)
    → IsTable f.buckets
    → v < length f.buckets
    → find_empty_slot f.buckets v ≡ some e
    → after.buckets ≡ set_slot f.buckets v e x
    → IsInserted f after v x
set_slot-IsInserted f after v x e t inside found written =
    let (e_inside, free) = find_empty_slot-lt f.buckets v e found in
    record {
      table = subst IsTable (sym written) (set_slot-IsTable f.buckets v e x inside t);
      same_size = ap length written ∙ length-set_slot f.buckets v e x;
      keeps = λ i y pos kept.
          ap (λ b. find_fp b i y) written
          ∙ set_slot-find_fp f.buckets v e x inside i y e_inside
              (λ is. omega (arith, is, free, pos)) kept;
    }

kick_loop-zero :
    (f : CuckooFilter) (v x : ℕ) (history : List KickRecord)
    → (kick_loop zero f v x history).1 ≡ false
unfolding kick_loop
kick_loop-zero f v x history = refl

pub kick_loop-IsInserted :
    (kicks : ℕ) (f f' : CuckooFilter) (v x : ℕ) (history : List KickRecord)
    → IsTable f.buckets
    → v < length f.buckets
    → kick_loop kicks f v x history ≡ (f', true)
    → IsInserted f f' v x
kick_loop-IsInserted zero f f' v x history t inside e =
    absurd (ground (arith, kick_loop-zero f v x history, ap (λ r. r.1) e))
kick_loop-IsInserted (suc kicks) f f' v x history t inside e =
    let t' = set_slot-IsTable f.buckets v (random_slot f) x inside t in
    let size = length-set_slot f.buckets v (random_slot f) x in
    let next : next_index f v < length (kicked f v x) =
      omega (arith, next_index-lt f v x t inside, size) in
    let step : IsInserted (after_kick f v x) f' (next_index f v) (victim_of f v) =
      elim (Option-cases (find_empty_slot (kicked f v x) (next_index f v))) [
        | inl full ↦
            kick_loop-IsInserted kicks (after_kick f v x) f' (next_index f v) (victim_of f v)
              (kick_record f v ∷ history) t' next
              (sym (kick_loop-full kicks f v x history full) ∙ e)
        | inr (slot, found) ↦
            set_slot-IsInserted (after_kick f v x) f' (next_index f v) (victim_of f v) slot t' next
              found
              (sym
                (ap (λ r. r.0.buckets) (sym (kick_loop-placed kicks f v x history slot found) ∙ e)))
      ] in
    record {
      table = step.table;
      same_size = step.same_size ∙ size;
      keeps = λ i y pos kept. step.keeps i y pos (Kept-kicked f v x t inside i y kept);
    }
