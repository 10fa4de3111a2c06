-- ===== src/Protocol/DomainName/Case.antt =====
-- Equality of labels without regard to the case of ASCII letters, and that lowered labels decide it.
use dns_pro.Base.{ℕ, ◌+◌, ◌≤◌, ◌≡◌, refl, ◌↔◌, ◌⊎◌, List, [], ◌∷◌, map, arith}
use dns_pro.Protocol.Wire.{Bytes}
use dns_pro.Protocol.DomainName.{ascii_lower}

-- From A to Z.
abbrev pub IsCapital : ℕ → Type 0
IsCapital byte = (65 ≤ byte) × (byte ≤ 90)

-- The same byte, or the two cases of a letter, which are 32 apart.
abbrev pub SameByte : ℕ → ℕ → Type 0
SameByte x y = (x ≡ y) ⊎ (IsCapital x × (y ≡ x + 32)) ⊎ (IsCapital y × (x ≡ y + 32))

abbrev pub SameLabel : Bytes → Bytes → Type 0
SameLabel [] [] = Unit {0}
SameLabel [] (y ∷ ys) = ⊥
SameLabel (x ∷ xs) [] = ⊥
SameLabel (x ∷ xs) (y ∷ ys) = SameByte x y × SameLabel xs ys

abbrev pub SameLabels : List Bytes → List Bytes → Type 0
SameLabels [] [] = Unit {0}
SameLabels [] (y ∷ ys) = ⊥
SameLabels (x ∷ xs) [] = ⊥
SameLabels (x ∷ xs) (y ∷ ys) = SameLabel x y × SameLabels xs ys

ascii_lower_iff : (x y : ℕ) → (ascii_lower x ≡ ascii_lower y) ↔ SameByte x y
unfolding ascii_lower
ascii_lower_iff x y = ground arith

cons-injective {ℓ} :
    {A : Type ℓ} (x y : A) (xs ys : List A) → (x ∷ xs) ≡ (y ∷ ys) → (x ≡ y) × (xs ≡ ys)
cons-injective x y xs ys e = (cc, cc)

lowered_label_iff : (xs ys : Bytes) → (map ascii_lower xs ≡ map ascii_lower ys) ↔ SameLabel xs ys
lowered_label_iff [] [] = (λ e. tt, λ h. refl)
lowered_label_iff [] (y ∷ ys) = (λ e. absurd (ground (arith, e)), λ h. absurd h)
lowered_label_iff (x ∷ xs) [] = (λ e. absurd (ground (arith, e)), λ h. absurd h)
lowered_label_iff (x ∷ xs) (y ∷ ys) = (
  λ e.
      let (first, rest) = cons-injective _ _ _ _ e in
      ((ascii_lower_iff x y).0 first, (lowered_label_iff xs ys).0 rest),
  λ h. cc ((ascii_lower_iff x y).1 h.0, (lowered_label_iff xs ys).1 h.1),
)

pub lowered_labels_iff :
    (xs ys : List Bytes) → (map (map ascii_lower) xs ≡ map (map ascii_lower) ys) ↔ SameLabels xs ys
lowered_labels_iff [] [] = (λ e. tt, λ h. refl)
lowered_labels_iff [] (y ∷ ys) = (λ e. absurd (ground (arith, e)), λ h. absurd h)
lowered_labels_iff (x ∷ xs) [] = (λ e. absurd (ground (arith, e)), λ h. absurd h)
lowered_labels_iff (x ∷ xs) (y ∷ ys) = (
  λ e.
      let (first, rest) = cons-injective _ _ _ _ e in
      ((lowered_label_iff x y).0 first, (lowered_labels_iff xs ys).0 rest),
  λ h. cc ((lowered_label_iff x y).1 h.0, (lowered_labels_iff xs ys).1 h.1),
)
