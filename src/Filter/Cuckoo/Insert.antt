-- ===== src/Filter/Cuckoo/Insert.antt =====
-- `displace` and `insert` where they accept an item.
use dns_pro.Base.{
  ℕ, ◌-◌, ◌<◌, bit_and, ◌≡◌, refl, sym, ap, ◌∙◌, subst, ◌⊎◌, inl, inr, Bool, true, false, [], arith,
  ◌==◌, if◌then◌else◌, Bool-cases, Option-cases, length,
}
use dns_pro.Protocol.Wire.{Bytes}
use dns_pro.Filter.Cuckoo.{
  CuckooFilter, find_fp, find_empty_slot, alternate_index, calc_fp, next_rand_u64, kick_out,
  displace, place, insert_fp, insert, no_failure, contains, index_of,
}
use dns_pro.Filter.Cuckoo.Index.{alternate_index-lt, index_of-lt, calc_fp_pos}
use dns_pro.Filter.Cuckoo.Kicks.{IsTable, IsInserted, set_slot-IsInserted, kick_loop-IsInserted}

abbrev pub or_undone : CuckooFilter × Bool → CuckooFilter → CuckooFilter × Bool
or_undone r g = if r.1 then (r.0, true) else (g, false)

placed-eq :
    (r : CuckooFilter × Bool) (g f' : CuckooFilter) → or_undone r g ≡ (f', true) → r ≡ (f', true)
placed-eq (a, true) g f' e = e
placed-eq (a, false) g f' e = absurd (ground (arith, ap (λ r. r.1) e))

buckets_eq :
    (g f' : CuckooFilter)
    → ◌≡◌ {A = CuckooFilter × Bool} (g, true) (f', true)
    → f'.buckets ≡ g.buckets
buckets_eq g f' e = sym (ap (λ (r : CuckooFilter × Bool). r.0.buckets) e)

-- The bucket of the two that `displace` starts at.
abbrev pub start_of : CuckooFilter → ℕ → ℕ → ℕ
start_of f index1 index2 = if bit_and (next_rand_u64 f.rng_state).0 1 == 0 then index1 else index2

pub start_cases :
    (f : CuckooFilter) (index1 index2 : ℕ)
    → (start_of f index1 index2 ≡ index1) ⊎ (start_of f index1 index2 ≡ index2)
start_cases f index1 index2 = elim (Bool-cases (bit_and (next_rand_u64 f.rng_state).0 1 == 0)) [
  | inl even ↦ inl (ground (arith, even))
  | inr odd ↦ inr (ground (arith, odd))
]

displace-IsInserted :
    (f f' : CuckooFilter) (index1 index2 x : ℕ)
    → IsTable f.buckets
    → start_of f index1 index2 < length f.buckets
    → displace f index1 index2 x ≡ (f', true)
    → IsInserted f f' (start_of f index1 index2) x
unfolding displace kick_out
displace-IsInserted f f' index1 index2 x t inside e =
    let start : CuckooFilter = record f { rng_state = (next_rand_u64 f.rng_state).1 } in
    let run =
      kick_loop-IsInserted f.maximum_kicks start f' (start_of f index1 index2) x [] t inside
        (placed-eq _ _ f' e) in
    record { table = run.table; same_size = run.same_size; keeps = run.keeps }

-- What an accepted insertion of `x` with first bucket `index1` promises.
pub record Keeps (before after : CuckooFilter) (index1 x : ℕ) : Type 0 where
  pub table : IsTable after.buckets
  pub same_size : length after.buckets ≡ length before.buckets
  pub finds : find_fp after.buckets index1 x ≡ true
  pub keeps :
      (i y : ℕ) → 0 < y → find_fp before.buckets i y ≡ true → find_fp after.buckets i y ≡ true

inserted-Keeps :
    (f f' : CuckooFilter) (v index1 x : ℕ)
    → 0 < x
    → (v ≡ index1) ⊎ (v ≡ alternate_index (length f.buckets) index1 x)
    → IsInserted f f' v x
    → Keeps f f' index1 x
inserted-Keeps f f' v index1 x pos at h = record {
  table = h.table;
  same_size = h.same_size;
  finds = h.keeps index1 x pos (inr (refl, at));
  keeps = λ i y y_pos found. h.keeps i y y_pos (inl found);
}

module _ (f0 f' : CuckooFilter) (index1 x : ℕ) (pos : 0 < x) (t : IsTable f0.buckets)
    (in1 : index1 < length f0.buckets) where
  insert_fp-Keeps : insert_fp f0 index1 x ≡ (f', true) → Keeps f0 f' index1 x
  unfolding insert_fp
  insert_fp-Keeps e =
      let f : CuckooFilter = record f0 { last_failure = no_failure } in
      let index2 : ℕ = alternate_index (length f0.buckets) index1 x in
      let in2 : index2 < length f0.buckets =
        ground (arith, t.size, alternate_index-lt t.bits index1 x t.some_bit) in
      elim (Bool-cases (find_fp f0.buckets index1 x)) [
        | inl found ↦
            let same : f0.buckets ≡ f'.buckets = sym (buckets_eq f f' (ground (arith, found, e))) in
            record {
              table = subst IsTable same t;
              same_size = ap length (sym same);
              finds = ap (λ b. find_fp b index1 x) (sym same) ∙ found;
              keeps = λ i y _ there. ap (λ b. find_fp b i y) (sym same) ∙ there;
            }
        | inr absent ↦ elim (Option-cases (find_empty_slot f0.buckets index1)) [
          | inr (slot, free) ↦ inserted-Keeps f0 f' index1 index1 x pos (inl refl) (
              set_slot-IsInserted f0 f' index1 x slot t in1 free
                (buckets_eq (place f index1 slot x) f' (ground (arith, absent, free, e))))
          | inl full1 ↦ elim (Option-cases (find_empty_slot f0.buckets index2)) [
            | inr (slot, free) ↦ inserted-Keeps f0 f' index2 index1 x pos (inr refl) (
                set_slot-IsInserted f0 f' index2 x slot t in2 free
                  (buckets_eq (place f index2 slot x) f' (ground (arith, absent, full1, free, e))))
            | inl full2 ↦
                let at = start_cases f index1 index2 in
                let inside : start_of f index1 index2 < length f0.buckets = elim at [
                  | inl e1 ↦ omega arith
                  | inr e2 ↦ omega arith
                ] in
                let run =
                  displace-IsInserted f f' index1 index2 x t inside
                    (ground (arith, absent, full1, full2, e)) in
                inserted-Keeps f0 f' (start_of f index1 index2) index1 x pos at
                  (record { table = run.table; same_size = run.same_size; keeps = run.keeps })
          ]
        ]
      ]

-- After an insertion that returns true into a table of 2 ^ k buckets of four slots, the filter
-- contains the item inserted and every item that it contained before, and the table has that form
-- still, with as many buckets.
pub contains-insert :
    (hash : Bytes → ℕ) (f f' : CuckooFilter) (item other : Bytes)
    → IsTable f.buckets
    → insert hash f item ≡ (f', true)
    → (other ≡ item) ⊎ (contains hash f other ≡ true)
    → (contains hash f' other ≡ true) × IsTable f'.buckets × (length f'.buckets ≡ length f.buckets)
unfolding insert contains index_of
contains-insert hash f f' item other t e h =
    let inside : index_of hash f item < length f.buckets =
      unfold index_of in ground (arith, t.size, index_of-lt hash f t.bits item) in
    let k =
      insert_fp-Keeps f f' (index_of hash f item) (calc_fp (hash item)) (calc_fp_pos (hash item)) t
        inside e in
    let found : find_fp f'.buckets (index_of hash f other) (calc_fp (hash other)) ≡ true = elim h [
      | inl is ↦ ap (λ o. find_fp f'.buckets (index_of hash f o) (calc_fp (hash o))) is ∙ k.finds
      | inr held ↦
          k.keeps (index_of hash f other) (calc_fp (hash other)) (calc_fp_pos (hash other)) held
    ] in
    (
      ap (λ n. find_fp f'.buckets (bit_and (hash other) (n - 1)) (calc_fp (hash other))) k.same_size
          ∙ found,
      k.table,
      k.same_size,
    )
