-- ===== src/Filter/Cuckoo/Fresh.antt =====
-- The table that the constructor makes.
use dns_pro.Base.{
  ℕ, zero, suc, ◌-◌, ◌*◌, ◌/◌, ◌^◌, ◌≤◌, ◌<◌, max, ◌≡◌, refl, sym, ap, ◌∙◌, subst, inl, inr, Option,
  none, some, List, [], arith, ltb, leb, Bool-cases, Option-cases, length,
}
use native.Mathlib.Nat.{pow-suc}
use dns_pro.Filter.Cuckoo.{
  Bucket, CuckooFilter, new_filter, normalize_bucket_count, bit_ceil_from, replicate_bucket,
  bucket_at, fps_per_bucket,
}
use dns_pro.Filter.Cuckoo.Kicks.{IsTable}

bit_ceil_from-pow :
    (more power n j : ℕ) → power ≡ 2 ^ j → (k : ℕ) × (j ≤ k) × (bit_ceil_from more power n ≡ 2 ^ k)
unfolding bit_ceil_from
bit_ceil_from-pow zero power n j e = (j, omega arith, e)
bit_ceil_from-pow (suc more) power n j e = elim (Bool-cases (leb n power)) [
  | inl enough ↦ (j, omega arith, ground (arith, enough, e))
  | inr small ↦
      let (k, le, is) =
        bit_ceil_from-pow more (power * 2) n (suc j) (omega (arith, e, pow-suc 2 j)) in
      (k, omega arith, ground (arith, small, is))
]

normalize_bucket_count-pow :
    (requested count : ℕ)
    → normalize_bucket_count requested ≡ some count
    → (k : ℕ) × (0 < k) × (count ≡ 2 ^ k)
unfolding normalize_bucket_count
normalize_bucket_count-pow requested count e =
    let n : ℕ = max requested 4 in
    let (k, le, is) = bit_ceil_from-pow 62 2 n 1 refl in
    let one : bit_ceil_from 63 1 n ≡ bit_ceil_from 62 2 n = unfold bit_ceil_from in ground arith in
    let counted : count ≡ bit_ceil_from 63 1 n = ground (arith, e) in
    (k, omega arith, counted ∙ one ∙ is)

length-replicate_bucket : (n : ℕ) → length (replicate_bucket n) ≡ n
unfolding replicate_bucket
length-replicate_bucket zero = refl
length-replicate_bucket (suc n) = ap suc (length-replicate_bucket n)

bucket_at-replicate_bucket :
    (n j : ℕ) → j < n → length (bucket_at (replicate_bucket n) j) ≡ fps_per_bucket
unfolding replicate_bucket bucket_at
bucket_at-replicate_bucket zero j h = absurd (omega arith)
bucket_at-replicate_bucket (suc n) zero h = refl
bucket_at-replicate_bucket (suc n) (suc j) h = bucket_at-replicate_bucket n j (omega arith)

abbrev buckets_of : Option CuckooFilter → List Bucket
buckets_of none = []
buckets_of (some f) = f.buckets

-- The constructor's table, if it does not throw, has 2 ^ k buckets, with k positive, of four slots.
pub new_filter-IsTable :
    (requested maximum_kicks : ℕ) (f : CuckooFilter)
    → new_filter requested maximum_kicks ≡ some f
    → IsTable f.buckets
unfolding new_filter
new_filter-IsTable requested maximum_kicks f e =
    elim (Option-cases (normalize_bucket_count requested)) [
      | inl thrown ↦ absurd (ground (arith, thrown, e))
      | inr (count, normal) ↦
          let (k, pos, is) = normalize_bucket_count-pow requested count normal in
          let made : f.buckets ≡ replicate_bucket count =
            elim (Bool-cases (ltb ((2 ^ 64 - 1) / fps_per_bucket) count)) [
              | inl much ↦ absurd (ground (arith, normal, much, e))
              | inr fits ↦ sym (ap buckets_of e) ∙ ground (arith, normal, fits)
            ] in
          subst IsTable (sym made) (record {
            bits = k;
            some_bit = pos;
            size = length-replicate_bucket count ∙ is;
            four_slots = λ j h.
                bucket_at-replicate_bucket count j
                  (omega (arith, h, length-replicate_bucket count));
          })
    ]
