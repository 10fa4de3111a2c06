-- ===== src/Runtime/TimerQueue/Nodes.antt =====
-- The nodes of the timer heap: their keys, swaps, and what sifting leaves as it is.
use dns_pro.Base.{
  ℕ, ◌+◌, ◌*◌, ◌^◌, ◌<◌, ◌≡◌, refl, sym, ap, ◌∙◌, subst, ◌≢◌, ◌⊎◌, inl, inr, Option, none, some,
  arith, ltb, ◌==◌, if◌then◌else◌, Bool-cases, length, get_elem?, set, length-set, get_elem?-set,
  lt-get_elem?, ok,
}
use dns_pro.Runtime.TimerQueue.{
  TimerRegistration, TimerQueue, Store, assign, earlier, place, swap_nodes, earlier_nodes,
}
use dns_pro.Runtime.TimerQueue.Order.{swapped}

-- The order of `earlier`, as a number.
abbrev pub rank : TimerRegistration → ℕ
rank registration = registration.deadline * 2 ^ 64 + registration.sequence

abbrev pub key_of : Store → Option ℕ → ℕ
key_of store none = 0
key_of store (some id) = rank (store id)

abbrev pub key : TimerQueue → ℕ → ℕ
key q i = key_of q.store (get_elem? q.heap i)

abbrev pub InHeap : TimerQueue → ℕ → Type 0
InHeap q id = (i : ℕ) × (get_elem? q.heap i ≡ some id)

-- The nodes know where they are, and sequence numbers are words.
pub record IsPlaced (q : TimerQueue) : Type 0 where
  pub placed : (i id : ℕ) → get_elem? q.heap i ≡ some id → (q.store id).heap_index ≡ i
  pub numbered : (id : ℕ) → (q.store id).sequence < 2 ^ 64

-- The nodes may have changed places, and all else is as it was.
pub record Moved (before after : TimerQueue) : Type 0 where
  pub valid : IsPlaced after
  pub rest : after ≡ record before { heap = after.heap; store = after.store }
  pub same_size : length after.heap ≡ length before.heap
  pub timers :
      (id : ℕ)
      → after.store id ≡ record (before.store id) { heap_index = (after.store id).heap_index }
  pub aside : (id : ℕ) → ¬ InHeap before id → after.store id ≡ before.store id
  pub into : (id : ℕ) → InHeap before id → InHeap after id
  pub from : (id : ℕ) → InHeap after id → InHeap before id

pub assign-same : (store : Store) (id : ℕ) (r : TimerRegistration) → assign store id r id ≡ r
unfolding assign
assign-same store id r = ground arith

pub assign-other :
    (store : Store) (id other : ℕ) (r : TimerRegistration)
    → id ≢ other
    → assign store id r other ≡ store other
unfolding assign
assign-other store id other r apart = ground (arith, apart)

pub named : (o : Option ℕ) {c id : ℕ} → o ≡ some c → o ≡ some id → id ≡ c
named o e f = ground (arith, e, f)

pub earlier_lem :
    (a b : TimerRegistration)
    → a.sequence < 2 ^ 64
    → b.sequence < 2 ^ 64
    → earlier a b ≡ ltb (rank a) (rank b)
unfolding earlier
earlier_lem a b small small' = ground (arith, small, small')

pub Moved-refl : (q : TimerQueue) → IsPlaced q → Moved q q
Moved-refl q v = record {
  valid = v;
  rest = refl;
  same_size = refl;
  timers = λ id. refl;
  aside = λ id h. refl;
  into = λ id h. h;
  from = λ id h. h;
}

pub Moved-trans : (a b c : TimerQueue) → Moved a b → Moved b c → Moved a c
Moved-trans a b c h k = record {
  valid = k.valid;
  rest = k.rest ∙ ap (λ (q : TimerQueue). record q { heap = c.heap; store = c.store }) h.rest;
  same_size = k.same_size ∙ h.same_size;
  timers = λ id.
      k.timers id
      ∙ ap (λ (r : TimerRegistration). record r { heap_index = (c.store id).heap_index })
          (h.timers id);
  aside = λ id away. k.aside id (λ inside. away (h.from id inside)) ∙ h.aside id away;
  into = λ id inside. k.into id (h.into id inside);
  from = λ id inside. h.from id (k.from id inside);
}

module _ (q : TimerQueue) (v : IsPlaced q) (x y a b : ℕ) (at_x : get_elem? q.heap x ≡ some a)
    (at_y : get_elem? q.heap y ≡ some b) (apart : x ≢ y) where
  abbrev pub swap : TimerQueue
  swap = place (place q x b) y a

  distinct : a ≢ b
  distinct e =
      apart (sym (v.placed x a at_x) ∙ ap (λ t. (q.store t).heap_index) e ∙ v.placed y b at_y)

  pub swap_nodes_lem : swap_nodes q x y ≡ ok swap
  unfolding swap_nodes
  swap_nodes_lem = ground (arith, at_x, at_y)

  pub earlier_nodes_lem : earlier_nodes q x y ≡ ok (ltb (key q x) (key q y))
  earlier_nodes_lem =
      ground (arith, at_x, at_y, earlier_lem (q.store a) (q.store b) (v.numbered a) (v.numbered b))

  abbrev moved_b : TimerRegistration
  moved_b = record (q.store b) { heap_index = x }

  abbrev inner : Store
  inner = assign q.store b moved_b

  abbrev moved_a : TimerRegistration
  moved_a = record (inner a) { heap_index = y }

  inside_x : x < length q.heap
  inside_x = lt-get_elem? q.heap x a at_x

  inside_y : y < length q.heap
  inside_y = lt-get_elem? q.heap y b at_y

  pub swap-size : length swap.heap ≡ length q.heap
  unfolding place
  swap-size = length-set (set q.heap x b) y a ∙ length-set q.heap x b

  swap-at :
      (i : ℕ)
      → get_elem? swap.heap i
        ≡ (if y == i then some a else if x == i then some b else get_elem? q.heap i)
  unfolding place
  swap-at i =
      get_elem?-set (set q.heap x b) y i a (omega (arith, inside_y, length-set q.heap x b))
      ∙ ap (λ t. if y == i then some a else t) (get_elem?-set q.heap x i b inside_x)

  swap-node :
      (i : ℕ)
      → ((i ≡ y) × (get_elem? swap.heap i ≡ some a))
        ⊎ ((i ≢ y) × (i ≡ x) × (get_elem? swap.heap i ≡ some b))
        ⊎ ((i ≢ y) × (i ≢ x) × (get_elem? swap.heap i ≡ get_elem? q.heap i))
  swap-node i = elim (Bool-cases (y == i)) [
    | inl same ↦ inl (ground (arith, same), swap-at i ∙ ground (arith, same))
    | inr differs ↦ elim (Bool-cases (x == i)) [
      | inl same ↦ inr (
          inl (
            ground (arith, differs),
            ground (arith, same),
            swap-at i ∙ ground (arith, differs, same),
          ))
      | inr other ↦ inr (
          inr (
            ground (arith, differs),
            ground (arith, other),
            swap-at i ∙ ground (arith, differs, other),
          ))
    ]
  ]

  swap-store :
      (id : ℕ)
      → ((id ≡ a) × (swap.store id ≡ record (q.store id) { heap_index = y }))
        ⊎ ((id ≢ a) × (id ≡ b) × (swap.store id ≡ record (q.store id) { heap_index = x }))
        ⊎ ((id ≢ a) × (id ≢ b) × (swap.store id ≡ q.store id))
  unfolding place
  swap-store id = elim (Bool-cases (a == id)) [
    | inl same ↦
        let e : id ≡ a = ground (arith, same) in
        inl (
          e,
          subst (λ t. swap.store t ≡ record (q.store t) { heap_index = y }) (sym e)
              (assign-same inner a moved_a
                ∙ ap (λ (r : TimerRegistration). record r { heap_index = y })
                    (assign-other q.store b a moved_b (λ d. distinct (sym d)))),
        )
    | inr differs ↦ elim (Bool-cases (b == id)) [
      | inl same ↦ inr (
          inl (
            ground (arith, differs),
            ground (arith, same),
            subst (λ t. swap.store t ≡ record (q.store t) { heap_index = x })
                (sym (ground (arith, same)))
                (assign-other inner a b moved_a distinct ∙ assign-same q.store b moved_b),
          ))
      | inr apart ↦ inr (
          inr (
            ground (arith, differs),
            ground (arith, apart),
            assign-other inner a id moved_a (λ e. ground (arith, differs, e))
                ∙ assign-other q.store b id moved_b (λ e. ground (arith, apart, e)),
          ))
    ]
  ]

  swap-timers :
      (id : ℕ) → swap.store id ≡ record (q.store id) { heap_index = (swap.store id).heap_index }
  swap-timers id = elim (swap-store id) [
    | inl (_, e) ↦
        e
        ∙ ap (λ t. record (q.store id) { heap_index = t }) (sym (ap TimerRegistration.heap_index e))
    | inr (inl (_, _, e)) ↦
        e
        ∙ ap (λ t. record (q.store id) { heap_index = t }) (sym (ap TimerRegistration.heap_index e))
    | inr (inr (_, _, e)) ↦
        e
        ∙ ap (λ t. record (q.store id) { heap_index = t }) (sym (ap TimerRegistration.heap_index e))
  ]

  swap-key_of : (o : Option ℕ) → key_of swap.store o ≡ key_of q.store o
  swap-key_of none = refl
  swap-key_of (some id) = ap rank (swap-timers id)

  pub swap-key : (i : ℕ) → key swap i ≡ swapped (key q) x y i
  swap-key i = swap-key_of (get_elem? swap.heap i) ∙ ap (key_of q.store) (swap-at i) ∙ swapped_key i
    where
      swapped_key :
          (i : ℕ)
          → key_of q.store
              (if y == i then some a else if x == i then some b else get_elem? q.heap i)
            ≡ swapped (key q) x y i
      swapped_key i = ground (arith, at_x, at_y)

  swap-placed : (i id : ℕ) → get_elem? swap.heap i ≡ some id → (swap.store id).heap_index ≡ i
  swap-placed i id at = elim (swap-node i) [
    | inl (e, n) ↦ elim (swap-store id) [
      | inl (_, s) ↦ ap TimerRegistration.heap_index s ∙ sym e
      | inr (inl (d, _, _)) ↦ absurd (d (named (get_elem? swap.heap i) n at))
      | inr (inr (d, _, _)) ↦ absurd (d (named (get_elem? swap.heap i) n at))
    ]
    | inr (inl (_, e, n)) ↦ elim (swap-store id) [
      | inl (d, _) ↦ absurd (distinct (sym d ∙ named (get_elem? swap.heap i) n at))
      | inr (inl (_, _, s)) ↦ ap TimerRegistration.heap_index s ∙ sym e
      | inr (inr (_, d, _)) ↦ absurd (d (named (get_elem? swap.heap i) n at))
    ]
    | inr (inr (not_y, not_x, n)) ↦
        let here : (q.store id).heap_index ≡ i = v.placed i id (sym n ∙ at) in
        elim (swap-store id) [
          | inl (d, _) ↦
              absurd (not_x (sym here ∙ ap (λ t. (q.store t).heap_index) d ∙ v.placed x a at_x))
          | inr (inl (_, d, _)) ↦
              absurd (not_y (sym here ∙ ap (λ t. (q.store t).heap_index) d ∙ v.placed y b at_y))
          | inr (inr (_, _, s)) ↦ ap TimerRegistration.heap_index s ∙ here
        ]
  ]

  swap-IsPlaced : IsPlaced swap
  swap-IsPlaced = record {
    placed = swap-placed;
    numbered = λ id. omega (arith, v.numbered id, ap TimerRegistration.sequence (swap-timers id));
  }

  swap-into : (id : ℕ) → InHeap q id → InHeap swap id
  swap-into id (i, at) = elim (swap-node i) [
    | inl (e, _) ↦ elim (swap-node x) [
      | inl (d, _) ↦ absurd (apart d)
      | inr (inl (_, _, n)) ↦ (x, n ∙ sym at_y ∙ ap (get_elem? q.heap) (sym e) ∙ at)
      | inr (inr (_, d, _)) ↦ absurd (d refl)
    ]
    | inr (inl (_, e, _)) ↦ elim (swap-node y) [
      | inl (_, n) ↦ (y, n ∙ sym at_x ∙ ap (get_elem? q.heap) (sym e) ∙ at)
      | inr (inl (d, _, _)) ↦ absurd (d refl)
      | inr (inr (d, _, _)) ↦ absurd (d refl)
    ]
    | inr (inr (_, _, n)) ↦ (i, n ∙ at)
  ]

  swap-from : (id : ℕ) → InHeap swap id → InHeap q id
  swap-from id (i, at) = elim (swap-node i) [
    | inl (_, n) ↦ (x, at_x ∙ sym n ∙ at)
    | inr (inl (_, _, n)) ↦ (y, at_y ∙ sym n ∙ at)
    | inr (inr (_, _, n)) ↦ (i, sym n ∙ at)
  ]

  pub swap-Moved : Moved q swap
  swap-Moved = record {
    valid = swap-IsPlaced;
    rest = unfold place in refl;
    same_size = swap-size;
    timers = swap-timers;
    aside = λ id away. elim (swap-store id) [
      | inl (e, _) ↦ absurd (away (x, at_x ∙ ap some (sym e)))
      | inr (inl (_, e, _)) ↦ absurd (away (y, at_y ∙ ap some (sym e)))
      | inr (inr (_, _, e)) ↦ e
    ];
    into = swap-into;
    from = swap-from;
  }
