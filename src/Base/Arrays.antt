-- ===== src/Base/Arrays.antt =====
-- Lists as arrays: writes in place, an element put behind, and counts by a test.
use Prim.Native.Nat.{ℕ, zero, suc, ◌+◌, ◌≤◌, ◌<◌}
use mathlib.Core.Path.{◌≡◌, refl, ap}
use mathlib.Core.Bool.{Bool, true, false}
use mathlib.Core.List.{List, [], ◌∷◌, ◌++◌}
use mathlib.Core.Option.{some}
use native.Mathlib.Omega.{arith}
use dns_pro.Base.Tests.{◌==◌, if◌then◌else◌}
use dns_pro.Base.Lists.{length, get_elem?, set, take}

abbrev pub one_if : Bool → ℕ
one_if true = 1
one_if false = 0

module _ {ℓ} {A : Type ℓ} where
  pub length-set : (xs : List A) (i : ℕ) (x : A) → length (set xs i x) ≡ length xs
  length-set [] i x = refl
  length-set (y ∷ xs) zero x = refl
  length-set (y ∷ xs) (suc i) x = ap suc (length-set xs i x)

  pub get_elem?-set :
      (xs : List A) (i j : ℕ) (x : A)
      → i < length xs
      → get_elem? (set xs i x) j ≡ (if i == j then some x else get_elem? xs j)
  get_elem?-set [] i j x h = absurd (omega arith)
  get_elem?-set (y ∷ xs) zero zero x h = refl
  get_elem?-set (y ∷ xs) zero (suc j) x h = ground arith
  get_elem?-set (y ∷ xs) (suc i) zero x h = ground arith
  get_elem?-set (y ∷ xs) (suc i) (suc j) x h = ground (arith, get_elem?-set xs i j x)

  pub set_twice : (xs : List A) (i : ℕ) (x y : A) → set (set xs i x) i y ≡ set xs i y
  set_twice [] i x y = refl
  set_twice (z ∷ xs) zero x y = refl
  set_twice (z ∷ xs) (suc i) x y = ap (◌∷◌ z) (set_twice xs i x y)

  pub get_elem?-append_one :
      (xs : List A) (x : A) (j : ℕ)
      → get_elem? (xs ++ x ∷ []) j ≡ (if length xs == j then some x else get_elem? xs j)
  get_elem?-append_one [] x zero = refl
  get_elem?-append_one [] x (suc j) = ground arith
  get_elem?-append_one (y ∷ xs) x zero = ground arith
  get_elem?-append_one (y ∷ xs) x (suc j) = ground (arith, get_elem?-append_one xs x j)

  pub get_elem?-take :
      (n : ℕ) (xs : List A) (i : ℕ) → i < n → get_elem? (take n xs) i ≡ get_elem? xs i
  get_elem?-take zero xs i h = absurd (omega arith)
  get_elem?-take (suc n) [] i h = refl
  get_elem?-take (suc n) (x ∷ xs) zero h = refl
  get_elem?-take (suc n) (x ∷ xs) (suc i) h = get_elem?-take n xs i (omega arith)

  pub lt-get_elem? : (xs : List A) (i : ℕ) (x : A) → get_elem? xs i ≡ some x → i < length xs
  lt-get_elem? [] i x h = absurd (ground (arith, h))
  lt-get_elem? (y ∷ xs) zero x h = omega arith
  lt-get_elem? (y ∷ xs) (suc i) x h = omega (arith, lt-get_elem? xs i x h)

  -- How many elements pass a test.
  abbrev pub count : (A → Bool) → List A → ℕ
  count test [] = 0
  count test (x ∷ xs) = one_if (test x) + count test xs

  pub count-set :
      (test : A → Bool) (xs : List A) (i : ℕ) (old new : A)
      → get_elem? xs i ≡ some old
      → count test (set xs i new) + one_if (test old) ≡ count test xs + one_if (test new)
  count-set test [] i old new h = absurd (ground (arith, h))
  count-set test (x ∷ xs) zero old new h =
      let same : x ≡ old = ground (arith, h) in omega (arith, ap (λ y. one_if (test y)) same)
  count-set test (x ∷ xs) (suc i) old new h = omega (arith, count-set test xs i old new h)

  pub count-append_one :
      (test : A → Bool) (xs : List A) (x : A)
      → count test (xs ++ x ∷ []) ≡ count test xs + one_if (test x)
  count-append_one test [] x = omega arith
  count-append_one test (y ∷ xs) x = omega (arith, count-append_one test xs x)

  pub count-le-length : (test : A → Bool) (xs : List A) → count test xs ≤ length xs
  count-le-length test [] = omega arith
  count-le-length test (x ∷ xs) = ground (arith, count-le-length test xs)
