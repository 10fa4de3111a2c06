-- ===== src/Filter/Cuckoo/Buckets.antt =====
-- Reading a table after one slot has been written.
use dns_pro.Base.{
  length-set, ℕ, zero, suc, ◌+◌, ◌-◌, ◌≤◌, ◌<◌, ◌≡◌, refl, ap, ap₂, ◌∙◌, ◌≢◌, ◌⊎◌, inl, inr, true,
  ◌||◌, some, List, [], ◌∷◌, arith, ◌==◌, if◌then◌else◌, ==_iff, Bool-cases, length, get_elem?, set,
}
use dns_pro.Filter.Cuckoo.{
  Bucket, bucket_at, slot_at, set_slot, holds, find_fp, empty_from, alternate_index,
}

module _ {ℓ} {A : Type ℓ} where
  -- Writing back what was read undoes a write.
  pub set-set_back :
      (xs : List A) (i : ℕ) (x y : A) → get_elem? xs i ≡ some y → set (set xs i x) i y ≡ xs
  set-set_back [] i x y e = refl
  set-set_back (z ∷ xs) zero x y e = ground (arith, e)
  set-set_back (z ∷ xs) (suc i) x y e = ap (◌∷◌ z) (set-set_back xs i x y e)

pub length-set_slot :
    (buckets : List Bucket) (i s x : ℕ) → length (set_slot buckets i s x) ≡ length buckets
unfolding set_slot
length-set_slot buckets i s x = length-set buckets i _

pub bucket_at-set :
    (buckets : List Bucket) (i j : ℕ) (b : Bucket)
    → i < length buckets
    → bucket_at (set buckets i b) j ≡ (if i == j then b else bucket_at buckets j)
unfolding bucket_at
bucket_at-set [] i j b h = absurd (omega arith)
bucket_at-set (c ∷ buckets) zero zero b h = refl
bucket_at-set (c ∷ buckets) zero (suc j) b h = ground arith
bucket_at-set (c ∷ buckets) (suc i) zero b h = ground arith
bucket_at-set (c ∷ buckets) (suc i) (suc j) b h = ground (arith, bucket_at-set buckets i j b)

pub bucket_at-set_slot :
    (buckets : List Bucket) (i j s x : ℕ)
    → i < length buckets
    → bucket_at (set_slot buckets i s x) j
      ≡ (if i == j then set (bucket_at buckets i) s x else bucket_at buckets j)
unfolding set_slot
bucket_at-set_slot buckets i j s x h = bucket_at-set buckets i j _ h

holds-set_same : (b : Bucket) (s x : ℕ) → s < length b → holds (set b s x) x ≡ true
unfolding holds
holds-set_same [] s x h = absurd (omega arith)
holds-set_same (y ∷ b) zero x h = ground arith
holds-set_same (y ∷ b) (suc s) x h = ground (arith, holds-set_same b s x)

-- A write loses nothing but what stood in the slot.
holds-set_other :
    (b : Bucket) (s x y : ℕ) → holds b y ≡ true → y ≢ slot_at b s → holds (set b s x) y ≡ true
unfolding holds slot_at
holds-set_other [] s x y h k = h
holds-set_other (z ∷ b) zero x y h k = ground (arith, k)
holds-set_other (z ∷ b) (suc s) x y h k = ground (arith, holds-set_other b s x y)

slot_at-head : (z : ℕ) (b : Bucket) (n : ℕ) → n ≡ 0 → slot_at (z ∷ b) n ≡ z
unfolding slot_at
slot_at-head z b zero e = refl
slot_at-head z b (suc n) e = absurd (omega arith)

slot_at-tail : (z : ℕ) (b : Bucket) (n : ℕ) → 0 < n → slot_at (z ∷ b) n ≡ slot_at b (n - 1)
unfolding slot_at
slot_at-tail z b zero h = absurd (omega arith)
slot_at-tail z b (suc n) h = ap (slot_at b) (omega arith)

pub empty_from-slot :
    (b : Bucket) (start slot : ℕ)
    → empty_from start b ≡ some slot
    → (start ≤ slot) × (slot < start + length b) × (slot_at b (slot - start) ≡ 0)
unfolding empty_from slot_at
empty_from-slot [] start slot e = absurd (ground arith)
empty_from-slot (z ∷ b) start slot e = elim (Bool-cases (z == 0)) [
  | inl free ↦
      let here : start ≡ slot = ground (arith, free, e) in
      (
        omega arith,
        omega arith,
        slot_at-head z b (slot - start) (omega arith) ∙ (==_iff z 0).0 free,
      )
  | inr used ↦
      let (above, inside, is_free) = empty_from-slot b (start + 1) slot (ground (arith, used, e)) in
      (
        omega arith,
        omega arith,
        slot_at-tail z b (slot - start) (omega arith) ∙ ap (slot_at b) (omega arith) ∙ is_free,
      )
]

-- What is looked up by (i, y), or is on its way with y in hand to one of its two buckets.
abbrev pub Kept : List Bucket → ℕ → ℕ → ℕ → ℕ → Type 0
Kept buckets carried v i y =
    (find_fp buckets i y ≡ true)
    ⊎ ((y ≡ carried) × ((v ≡ i) ⊎ (v ≡ alternate_index (length buckets) i y)))

module _ (buckets : List Bucket) (v s x : ℕ) (inside : v < length buckets) where
  -- A bucket holds after a write what it held before, but for what stood in the slot.
  holds-set_slot :
      (j y : ℕ)
      → y ≢ slot_at (bucket_at buckets v) s
      → holds (bucket_at buckets j) y ≡ true
      → holds (bucket_at (set_slot buckets v s x) j) y ≡ true
  holds-set_slot j y other h = elim (Bool-cases (v == j)) [
    | inl same ↦
        ap (λ b. holds b y) (bucket_at-set_slot buckets v j s x inside ∙ ground (arith, same))
        ∙ holds-set_other (bucket_at buckets v) s x y
            (ap (λ w. holds (bucket_at buckets w) y) ((==_iff v j).0 same) ∙ h) other
    | inr differs ↦
        ap (λ b. holds b y) (bucket_at-set_slot buckets v j s x inside ∙ ground (arith, differs))
        ∙ h
  ]

  holds-set_slot_written :
      s < length (bucket_at buckets v) → holds (bucket_at (set_slot buckets v s x) v) x ≡ true
  holds-set_slot_written h =
      ap (λ b. holds b x) (bucket_at-set_slot buckets v v s x inside ∙ ground arith)
      ∙ holds-set_same (bucket_at buckets v) s x h

  -- Writing the carried fingerprint where nothing but what stands there may be lost.
  pub set_slot-find_fp :
      (i y : ℕ)
      → s < length (bucket_at buckets v)
      → y ≢ slot_at (bucket_at buckets v) s
      → Kept buckets x v i y
      → find_fp (set_slot buckets v s x) i y ≡ true
  unfolding find_fp
  set_slot-find_fp i y hs hy kept =
      let alternate : ℕ = alternate_index (length buckets) i y in
      let size = length-set_slot buckets v s x in
      rw size (elim kept [
        | inl found ↦ ground (arith, found, holds-set_slot i y hy, holds-set_slot alternate y hy)
        | inr (is_carried, inl here) ↦ ground (arith, is_carried, here, holds-set_slot_written hs)
        | inr (is_carried, inr there) ↦ ground (arith, is_carried, there, holds-set_slot_written hs)
      ])

  -- A write elsewhere changes no answer.
  pub find_fp-elsewhere :
      (i y : ℕ)
      → v ≢ i
      → v ≢ alternate_index (length buckets) i y
      → find_fp (set_slot buckets v s x) i y ≡ find_fp buckets i y
  unfolding find_fp
  find_fp-elsewhere i y ni na =
      let alternate : ℕ = alternate_index (length buckets) i y in
      rw (length-set_slot buckets v s x) (
        ap₂ (λ b c. holds b y || holds c y)
          (bucket_at-set_slot buckets v i s x inside ∙ ground (arith, ni))
          (bucket_at-set_slot buckets v alternate s x inside ∙ ground (arith, na)))
