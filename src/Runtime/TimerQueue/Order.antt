-- ===== src/Runtime/TimerQueue/Order.antt =====
-- The order of a binary heap, on the keys of its nodes: what holds while a node goes up or down.
use dns_pro.Base.{
  ℕ, zero, suc, ◌+◌, ◌*◌, ◌/◌, ◌≤◌, ◌<◌, ◌≡◌, sym, subst, ◌≢◌, ◌⊎◌, inl, inr, arith, ◌==◌,
  if◌then◌else◌, Bool-cases,
}

-- c is the left or the right child of p.
abbrev pub IsChild : ℕ → ℕ → Type 0
IsChild p c = (2 * p + 1 ≤ c) × (c ≤ 2 * p + 2)

-- The keys after a swap of two nodes.
abbrev pub swapped : (ℕ → ℕ) → ℕ → ℕ → ℕ → ℕ
swapped k x y i = if y == i then k x else if x == i then k y else k i

-- The keys after a write of one node.
abbrev pub written : (ℕ → ℕ) → ℕ → ℕ → ℕ → ℕ
written k x key i = if x == i then key else k i

abbrev pub Ordered : (ℕ → ℕ) → ℕ → Type 0
Ordered k n = (p c : ℕ) → IsChild p c → c < n → k p ≤ k c

-- Ordered, but for a node that may be less than its parent.
abbrev pub OrderedUp : (ℕ → ℕ) → ℕ → ℕ → Type 0
OrderedUp k n x =
    ((p c : ℕ) → IsChild p c → c < n → c ≢ x → k p ≤ k c)
    × ((p c : ℕ) → IsChild p x → IsChild x c → c < n → k p ≤ k c)

-- Ordered, but for a node that may be greater than its children.
abbrev pub OrderedDown : (ℕ → ℕ) → ℕ → ℕ → Type 0
OrderedDown k n x =
    ((p c : ℕ) → IsChild p c → c < n → p ≢ x → k p ≤ k c)
    × ((p c : ℕ) → IsChild p x → IsChild x c → c < n → k p ≤ k c)

module _ (k : ℕ → ℕ) (n x : ℕ) where
  pub up_done : OrderedUp k n x → ((y : ℕ) → IsChild y x → k y ≤ k x) → Ordered k n
  up_done h above p c child inside = elim (Bool-cases (c == x)) [
    | inl same ↦
        let e : c ≡ x = ground (arith, same) in
        subst (λ t. k p ≤ k t) (sym e) (above p (subst (IsChild p) e child))
    | inr differs ↦ h.0 p c child inside (λ e. ground (arith, differs, e))
  ]

  pub down_done : OrderedDown k n x → ((c : ℕ) → IsChild x c → c < n → k x ≤ k c) → Ordered k n
  down_done h below p c child inside = elim (Bool-cases (p == x)) [
    | inl same ↦
        let e : p ≡ x = ground (arith, same) in
        subst (λ t. k t ≤ k c) (sym e) (below c (subst (λ t. IsChild t c) e child) inside)
    | inr differs ↦ h.0 p c child inside (λ e. ground (arith, differs, e))
  ]

  -- Where a key of a swap comes from.
  swapped-cases :
      (y i : ℕ)
      → ((i ≡ y) × (swapped k x y i ≡ k x))
        ⊎ ((i ≢ y) × (i ≡ x) × (swapped k x y i ≡ k y))
        ⊎ ((i ≢ y) × (i ≢ x) × (swapped k x y i ≡ k i))
  swapped-cases y i = elim (Bool-cases (y == i)) [
    | inl same ↦ inl (ground (arith, same), ground (arith, same))
    | inr differs ↦ elim (Bool-cases (x == i)) [
      | inl at ↦
          inr (inl (ground (arith, differs), ground (arith, at), ground (arith, differs, at)))
      | inr apart ↦
          inr (inr (ground (arith, differs), ground (arith, apart), ground (arith, differs, apart)))
    ]
  ]

  -- A node that is less than its parent changes places with it.
  pub up_step :
      (y : ℕ) → x < n → OrderedUp k n x → IsChild y x → k x < k y → OrderedUp (swapped k x y) n y
  up_step y inside h child less = (
    λ p c edge within c_not. elim (swapped-cases y c) [
      | inl (e, v) ↦ absurd (c_not e)
      | inr (inl (_, e, v)) ↦ elim (swapped-cases y p) [
        | inl (_, w) ↦ omega (arith, v, w)
        | inr (inl (_, e', w)) ↦ absurd (omega (arith, e, e'))
        | inr (inr (p_not, _, w)) ↦ absurd (p_not (omega (arith, e)))
      ]
      | inr (inr (_, c_apart, v)) ↦ elim (swapped-cases y p) [
        | inl (e, w) ↦
            let bound : k y ≤ k c = h.0 y c (subst (λ t. IsChild t c) e edge) within c_apart in
            omega (arith, v, w, bound)
        | inr (inl (_, e, w)) ↦
            let bound : k y ≤ k c = h.1 y c child (subst (λ t. IsChild t c) e edge) within in
            omega (arith, v, w, bound)
        | inr (inr (_, _, w)) ↦ omega (arith, v, w, h.0 p c edge within c_apart)
      ]
    ],
    λ p c over under within. elim (swapped-cases y p) [
      | inl (e, w) ↦ absurd (omega (arith, e))
      | inr (inl (_, e, w)) ↦ absurd (omega (arith, e))
      | inr (inr (p_not, _, w)) ↦
          let first : k p ≤ k y = h.0 p y over (omega arith) (λ e. omega (arith, e)) in
          elim (swapped-cases y c) [
            | inl (e, v) ↦ absurd (omega (arith, e))
            | inr (inl (_, e, v)) ↦ omega (arith, v, w, first)
            | inr (inr (_, c_apart, v)) ↦ omega (arith, v, w, first, h.0 y c under within c_apart)
          ]
    ],
  )

  -- A node that is greater than the lesser of its children changes places with that.
  pub down_step :
      (y : ℕ)
      → y < n
      → OrderedDown k n x
      → IsChild x y
      → ((c : ℕ) → IsChild x c → c < n → k y ≤ k c)
      → k y < k x
      → OrderedDown (swapped k x y) n y
  down_step y inside h child least less = (
    λ p c edge within p_not. elim (swapped-cases y p) [
      | inl (e, w) ↦ absurd (p_not e)
      | inr (inl (_, e, w)) ↦
          let edge_x : IsChild x c = subst (λ t. IsChild t c) e edge in
          elim (swapped-cases y c) [
            | inl (_, v) ↦ omega (arith, v, w)
            | inr (inl (_, e', v)) ↦ absurd (omega (arith, e'))
            | inr (inr (_, _, v)) ↦ omega (arith, v, w, least c edge_x within)
          ]
      | inr (inr (_, p_apart, w)) ↦ elim (swapped-cases y c) [
        | inl (e, v) ↦ absurd (p_apart (omega (arith, e)))
        | inr (inl (_, e, v)) ↦
            let bound : k p ≤ k y = h.1 p y (subst (IsChild p) e edge) child inside in
            omega (arith, v, w, bound)
        | inr (inr (_, _, v)) ↦ omega (arith, v, w, h.0 p c edge within p_apart)
      ]
    ],
    λ p c over under within.
        let lower : k y ≤ k c = h.0 y c under within (λ e. omega (arith, e)) in
        elim (swapped-cases y c) [
          | inl (e, v) ↦ absurd (omega (arith, e))
          | inr (inl (_, e, v)) ↦ absurd (omega (arith, e))
          | inr (inr (_, _, v)) ↦ elim (swapped-cases y p) [
            | inl (e, w) ↦ absurd (omega (arith, e))
            | inr (inl (_, e, w)) ↦ omega (arith, v, w, lower)
            | inr (inr (p_not, p_apart, w)) ↦ absurd (p_apart (omega arith))
          ]
        ],
  )

-- The first key is the least.
root_least_fuel : (fuel : ℕ) (k : ℕ → ℕ) (n i : ℕ) → Ordered k n → i < n → i ≤ fuel → k 0 ≤ k i
root_least_fuel fuel k n zero h inside enough = omega arith
root_least_fuel zero k n (suc i) h inside enough = absurd (omega arith)
root_least_fuel (suc fuel) k n (suc i) h inside enough = omega (
  arith,
  h (i / 2) (suc i) (omega arith, omega arith) inside,
  root_least_fuel fuel k n (i / 2) h (omega arith) (omega arith),
)

pub root_least : (k : ℕ → ℕ) (n i : ℕ) → Ordered k n → i < n → k 0 ≤ k i
root_least k n i h inside = root_least_fuel i k n i h inside (omega arith)

-- The last node goes to another place.
module _ (k : ℕ → ℕ) (n x key : ℕ) (h : Ordered k n) where
  written-cases :
      (i : ℕ) → ((i ≡ x) × (written k x key i ≡ key)) ⊎ ((i ≢ x) × (written k x key i ≡ k i))
  written-cases i = elim (Bool-cases (x == i)) [
    | inl same ↦ inl (ground (arith, same), ground (arith, same))
    | inr differs ↦ inr (ground (arith, differs), ground (arith, differs))
  ]

  pub written-up : (y : ℕ) → IsChild y x → x < n → key < k y → OrderedUp (written k x key) n x
  written-up y child inside less = (
    λ p c edge within c_not. elim (written-cases c) [
      | inl (e, v) ↦ absurd (c_not e)
      | inr (_, v) ↦ elim (written-cases p) [
        | inl (e, w) ↦
            let below : k x ≤ k c = h x c (subst (λ t. IsChild t c) e edge) within in
            omega (arith, v, w, below, h y x child inside)
        | inr (_, w) ↦ omega (arith, v, w, h p c edge within)
      ]
    ],
    λ p c over under within. elim (written-cases c) [
      | inl (e, v) ↦ absurd (omega (arith, e))
      | inr (_, v) ↦ elim (written-cases p) [
        | inl (e, w) ↦ absurd (omega (arith, e))
        | inr (_, w) ↦ omega (arith, v, w, h p x over (omega arith), h x c under within)
      ]
    ],
  )

  pub written-down : x < n → ((y : ℕ) → IsChild y x → k y ≤ key) → OrderedDown (written k x key) n x
  written-down inside over_key = (
    λ p c edge within p_not. elim (written-cases p) [
      | inl (e, w) ↦ absurd (p_not e)
      | inr (_, w) ↦ elim (written-cases c) [
        | inl (e, v) ↦ omega (arith, v, w, over_key p (subst (IsChild p) e edge))
        | inr (_, v) ↦ omega (arith, v, w, h p c edge within)
      ]
    ],
    λ p c over under within. elim (written-cases c) [
      | inl (e, v) ↦ absurd (omega (arith, e))
      | inr (_, v) ↦ elim (written-cases p) [
        | inl (e, w) ↦ absurd (omega (arith, e))
        | inr (_, w) ↦ omega (arith, v, w, h p x over (omega arith), h x c under within)
      ]
    ],
  )

-- The order is one of the keys of the nodes that are there.
module _ (k k' : ℕ → ℕ) (n x : ℕ) (agree : (i : ℕ) → i < n → k i ≡ k' i) where
  agree_below : (p c : ℕ) → p < n → c < n → k p ≤ k c → k' p ≤ k' c
  agree_below p c inside within h = omega (arith, h, agree p inside, agree c within)

  pub Ordered-agree : Ordered k n → Ordered k' n
  Ordered-agree h p c edge within = agree_below p c (omega arith) within (h p c edge within)

  pub OrderedUp-agree : OrderedUp k n x → OrderedUp k' n x
  OrderedUp-agree h = (
    λ p c edge within c_not. agree_below p c (omega arith) within (h.0 p c edge within c_not),
    λ p c over under within. agree_below p c (omega arith) within (h.1 p c over under within),
  )

  pub OrderedDown-agree : OrderedDown k n x → OrderedDown k' n x
  OrderedDown-agree h = (
    λ p c edge within p_not. agree_below p c (omega arith) within (h.0 p c edge within p_not),
    λ p c over under within. agree_below p c (omega arith) within (h.1 p c over under within),
  )
