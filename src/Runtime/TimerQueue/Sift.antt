-- ===== src/Runtime/TimerQueue/Sift.antt =====
-- Sifting: a node that is out of order finds its place, and the heap is in order again.
use dns_pro.Base.{
  ℕ, zero, suc, ◌+◌, ◌-◌, ◌*◌, ◌/◌, ◌≤◌, ◌<◌, ◌≡◌, sym, ap, ◌∙◌, subst, fun_ext, ◌≢◌, ◌⊎◌, inl, inr,
  true, false, some, arith, ltb, leb, ◌==◌, Bool-cases, length, get_elem?, Outcome, ok, Ensures,
  Ensures-mono,
}
use dns_pro.Runtime.TimerQueue.{
  TimerQueue, earlier_nodes, swap_nodes, sift_up, sift_down, sift, earliest_child,
}
use dns_pro.Runtime.TimerQueue.Order.{
  IsChild, swapped, Ordered, OrderedUp, OrderedDown, up_done, up_step, down_done, down_step,
}
use dns_pro.Runtime.TimerQueue.Nodes.{
  key, IsPlaced, Moved, Moved-refl, Moved-trans, swap, swap_nodes_lem, earlier_nodes_lem, swap-size,
  swap-key, swap-Moved,
}
use dns_pro.Protocol.Wire.Reads.{get_elem?-lt}

abbrev pub Sifted : TimerQueue → TimerQueue → Type 0
Sifted before after = Moved before after × Ordered (key after) (length after.heap)

module _ (q : TimerQueue) (v : IsPlaced q) (x y : ℕ) (inside_x : x < length q.heap)
    (inside_y : y < length q.heap) (apart : x ≢ y) where
  abbrev node_x : (a : ℕ) × (get_elem? q.heap x ≡ some a)
  node_x = get_elem?-lt q.heap x inside_x

  abbrev node_y : (b : ℕ) × (get_elem? q.heap y ≡ some b)
  node_y = get_elem?-lt q.heap y inside_y

  abbrev after_swap : TimerQueue
  after_swap = swap q v x y node_x.0 node_y.0 node_x.1 node_y.1 apart

  compare_lem : earlier_nodes q x y ≡ ok (ltb (key q x) (key q y))
  compare_lem = earlier_nodes_lem q v x y node_x.0 node_y.0 node_x.1 node_y.1 apart

  swap_lem : swap_nodes q x y ≡ ok after_swap
  swap_lem = swap_nodes_lem q v x y node_x.0 node_y.0 node_x.1 node_y.1 apart

  after_swap-Moved : Moved q after_swap
  after_swap-Moved = swap-Moved q v x y node_x.0 node_y.0 node_x.1 node_y.1 apart

  after_swap-keys :
      (P : (ℕ → ℕ) → ℕ → ℕ → Type 0)
      → P (swapped (key q) x y) (length q.heap) y
      → P (key after_swap) (length after_swap.heap) y
  after_swap-keys P h =
      subst (λ k. P k (length after_swap.heap) y)
        (sym (fun_ext (swap-key q v x y node_x.0 node_y.0 node_x.1 node_y.1 apart)))
        (subst (λ n. P (swapped (key q) x y) n y)
          (sym (swap-size q v x y node_x.0 node_y.0 node_x.1 node_y.1 apart)) h)

  after_swap-Sifted :
      (m : Outcome ⊥ TimerQueue) → Ensures (Sifted after_swap) m → Ensures (Sifted q) m
  after_swap-Sifted m h =
      Ensures-mono (Sifted after_swap) (Sifted q) m h
        (λ after s. (Moved-trans q after_swap after after_swap-Moved s.0, s.1))

abbrev parent : ℕ → ℕ
parent x = (x - 1) / 2

module _ (fuel : ℕ) (q : TimerQueue) (x : ℕ) where
  sift_up-top : (x == 0) ≡ true → sift_up (suc fuel) q x ≡ ok q
  unfolding sift_up
  sift_up-top top = ground (arith, top)

  sift_up-stays :
      (x == 0) ≡ false → earlier_nodes q x (parent x) ≡ ok false → sift_up (suc fuel) q x ≡ ok q
  unfolding sift_up
  sift_up-stays below stays = ground (arith, below, stays)

  sift_up-rises :
      (after : TimerQueue)
      → (x == 0) ≡ false
      → earlier_nodes q x (parent x) ≡ ok true
      → swap_nodes q x (parent x) ≡ ok after
      → sift_up (suc fuel) q x ≡ sift_up fuel after (parent x)
  unfolding sift_up
  sift_up-rises after below rises done = ground (arith, below, rises, done)

pub sift_up-Sifted :
    (fuel : ℕ) (q : TimerQueue) (x : ℕ)
    → IsPlaced q
    → x < length q.heap
    → x < fuel
    → OrderedUp (key q) (length q.heap) x
    → Ensures (Sifted q) (sift_up fuel q x)
sift_up-Sifted zero q x v inside enough h = absurd (omega arith)
sift_up-Sifted (suc fuel) q x v inside enough h = elim (Bool-cases (x == 0)) [
  | inl top ↦ rw (sift_up-top fuel q x top) (
    Moved-refl q v,
    up_done (key q) (length q.heap) x h (λ y child. absurd (ground (arith, top, child))),
  )
  | inr below ↦
      let p : ℕ = parent x in
      let pos : 0 < x = ground (arith, below) in
      let apart : x ≢ p = λ e. omega (arith, e) in
      let p_inside : p < length q.heap = omega arith in
      let compared = compare_lem q v x p inside p_inside apart in
      elim (Bool-cases (ltb (key q x) (key q p))) [
        | inl rises ↦
            let after = after_swap q v x p inside p_inside apart in
            let moved = after_swap-Moved q v x p inside p_inside apart in
            let done = swap_lem q v x p inside p_inside apart in
            let up =
              up_step (key q) (length q.heap) x p inside h (omega arith, omega arith)
                (ground (arith, rises)) in
            rw (sift_up-rises fuel q x after below (compared ∙ ap ok rises) done) (
              after_swap-Sifted q v x p inside p_inside apart (sift_up fuel after p) (
                sift_up-Sifted fuel after p moved.valid (omega (arith, moved.same_size))
                  (omega arith) (after_swap-keys q v x p inside p_inside apart OrderedUp up)))
        | inr stays ↦ rw (sift_up-stays fuel q x below (compared ∙ ap ok stays)) (
          Moved-refl q v,
          up_done (key q) (length q.heap) x h (λ y child.
              subst (λ t. key q t ≤ key q x) {x = p} (omega arith) (ground (arith, stays))),
        )
      ]
]

module _ (fuel : ℕ) (q : TimerQueue) (x : ℕ) where
  sift_down-leaf : leb (length q.heap) (x * 2 + 1) ≡ true → sift_down (suc fuel) q x ≡ ok q
  unfolding sift_down
  sift_down-leaf leaf = ground (arith, leaf)

  sift_down-stays :
      (y : ℕ)
      → leb (length q.heap) (x * 2 + 1) ≡ false
      → earliest_child q x ≡ ok y
      → earlier_nodes q y x ≡ ok false
      → sift_down (suc fuel) q x ≡ ok q
  unfolding sift_down
  sift_down-stays y inner child stays = ground (arith, inner, child, stays)

  sift_down-sinks :
      (y : ℕ) (after : TimerQueue)
      → leb (length q.heap) (x * 2 + 1) ≡ false
      → earliest_child q x ≡ ok y
      → earlier_nodes q y x ≡ ok true
      → swap_nodes q x y ≡ ok after
      → sift_down (suc fuel) q x ≡ sift_down fuel after y
  unfolding sift_down
  sift_down-sinks y after inner child sinks done = ground (arith, inner, child, sinks, done)

each_child : (x c : ℕ) → IsChild x c → (c ≡ x * 2 + 1) ⊎ (c ≡ x * 2 + 2)
each_child x c child = elim (Bool-cases (c == x * 2 + 1)) [
  | inl left ↦ inl (ground (arith, left))
  | inr right ↦ inr (ground (arith, right, child))
]

-- A bound on the keys of the children that are there.
children_bound :
    (k : ℕ → ℕ) (n x bound : ℕ)
    → bound ≤ k (x * 2 + 1)
    → (x * 2 + 2 < n → bound ≤ k (x * 2 + 2))
    → (c : ℕ) → IsChild x c
    → c < n
    → bound ≤ k c
children_bound k n x bound left right c child within = elim (each_child x c child) [
  | inl e ↦ subst (λ t. bound ≤ k t) (sym e) left
  | inr e ↦ subst (λ t. bound ≤ k t) (sym e) (right (omega (arith, e)))
]

-- The child that is taken, and that no child is earlier.
earliest_child_lem :
    (q : TimerQueue) (x : ℕ)
    → IsPlaced q
    → x * 2 + 1 < length q.heap
    → (y : ℕ) × (earliest_child q x ≡ ok y)
      × IsChild x y
      × (y < length q.heap)
      × ((c : ℕ) → IsChild x c → c < length q.heap → key q y ≤ key q c)
unfolding earliest_child
earliest_child_lem q x v inner = elim (Bool-cases (ltb (x * 2 + 2) (length q.heap))) [
  | inl both ↦
      let right_inside : x * 2 + 2 < length q.heap = ground (arith, both) in
      let compared =
        compare_lem q v (x * 2 + 2) (x * 2 + 1) right_inside inner (λ e. omega (arith, e)) in
      elim (Bool-cases (ltb (key q (x * 2 + 2)) (key q (x * 2 + 1)))) [
        | inl right_first ↦ (
          x * 2 + 2,
          ground (arith, both, compared, right_first),
          (omega arith, omega arith),
          right_inside,
          children_bound (key q) (length q.heap) x (key q (x * 2 + 2)) (ground (arith, right_first))
              (λ _. omega arith),
        )
        | inr left_first ↦ (
          x * 2 + 1,
          ground (arith, both, compared, left_first),
          (omega arith, omega arith),
          inner,
          children_bound (key q) (length q.heap) x (key q (x * 2 + 1)) (omega arith)
              (λ _. ground (arith, left_first)),
        )
      ]
  | inr only ↦ (
    x * 2 + 1,
    ground (arith, only),
    (omega arith, omega arith),
    inner,
    children_bound (key q) (length q.heap) x (key q (x * 2 + 1)) (omega arith)
        (λ within. absurd (ground (arith, only, within))),
  )
]

ltb-false : (a b : ℕ) → ltb a b ≡ false → b ≤ a
ltb-false a b h = ground (arith, h)

pub sift_down-Sifted :
    (fuel : ℕ) (q : TimerQueue) (x : ℕ)
    → IsPlaced q
    → x < length q.heap
    → length q.heap < x + fuel
    → OrderedDown (key q) (length q.heap) x
    → Ensures (Sifted q) (sift_down fuel q x)
sift_down-Sifted zero q x v inside enough h = absurd (omega arith)
sift_down-Sifted (suc fuel) q x v inside enough h =
    elim (Bool-cases (leb (length q.heap) (x * 2 + 1))) [
      | inl leaf ↦ rw (sift_down-leaf fuel q x leaf) (
        Moved-refl q v,
        down_done (key q) (length q.heap) x h
            (λ c child within. absurd (ground (arith, leaf, child, within))),
      )
      | inr inner ↦
          let (y, taken, child, y_inside, least) =
            earliest_child_lem q x v (ground (arith, inner)) in
          let apart : x ≢ y = λ e. omega (arith, e) in
          let compared = compare_lem q v y x y_inside inside (λ e. apart (sym e)) in
          elim (Bool-cases (ltb (key q y) (key q x))) [
            | inl sinks ↦
                let after = after_swap q v x y inside y_inside apart in
                let moved = after_swap-Moved q v x y inside y_inside apart in
                let done = swap_lem q v x y inside y_inside apart in
                let down =
                  down_step (key q) (length q.heap) x y y_inside h child least
                    (ground (arith, sinks)) in
                rw (sift_down-sinks fuel q x y after inner taken (compared ∙ ap ok sinks) done) (
                  after_swap-Sifted q v x y inside y_inside apart (sift_down fuel after y) (
                    sift_down-Sifted fuel after y moved.valid
                      (omega (arith, moved.same_size, y_inside))
                      (omega (arith, moved.same_size, child, enough))
                      (after_swap-keys q v x y inside y_inside apart OrderedDown down)))
            | inr stays ↦ rw (sift_down-stays fuel q x y inner taken (compared ∙ ap ok stays)) (
              Moved-refl q v,
              down_done (key q) (length q.heap) x h (λ c edge within.
                  omega (arith, least c edge within, ltb-false (key q y) (key q x) stays)),
            )
          ]
    ]

-- A node in a wrong place, which is too early or too late for it.
pub sift-Sifted :
    (q : TimerQueue) (x : ℕ)
    → IsPlaced q
    → x < length q.heap
    → ((y : ℕ) → IsChild y x → key q x < key q y → OrderedUp (key q) (length q.heap) x)
    → (((y : ℕ) → IsChild y x → key q y ≤ key q x) → OrderedDown (key q) (length q.heap) x)
    → Ensures (Sifted q) (sift q x)
unfolding sift
sift-Sifted q x v inside up down = elim (Bool-cases (x == 0)) [
  | inl top ↦
      rw (top, sift)
        (sift_down-Sifted (length q.heap + 1) q x v inside (omega arith)
          (down (λ y child. absurd (ground (arith, top, child)))))
  | inr below ↦
      let p : ℕ = parent x in
      let pos : 0 < x = ground (arith, below) in
      let apart : x ≢ p = λ e. omega (arith, e) in
      let compared = compare_lem q v x p inside (omega arith) apart in
      elim (Bool-cases (ltb (key q x) (key q p))) [
        | inl rises ↦
            rw (below, compared, rises, sift)
              (sift_up-Sifted (x + 1) q x v inside (omega arith)
                (up p (omega arith, omega arith) (ground (arith, rises))))
        | inr stays ↦
            rw (below, compared, stays, sift)
              (sift_down-Sifted (length q.heap + 1) q x v inside (omega arith) (
                down (λ y child.
                  subst (λ t. key q t ≤ key q x) {x = p} (omega arith)
                    (ltb-false (key q x) (key q p) stays))))
      ]
]
