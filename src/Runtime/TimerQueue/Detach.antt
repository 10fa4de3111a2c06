-- ===== src/Runtime/TimerQueue/Detach.antt =====
-- remove_at: the last node takes the place of the one that goes, and is sifted from there.
use dns_pro.Base.{
  ℕ, ◌-◌, ◌≤◌, ◌<◌, ◌≡◌, refl, sym, ap, ◌∙◌, subst, ◌≢◌, ◌⊎◌, inl, inr, true, false, Option, none,
  some, arith, ltb, ◌==◌, Bool-cases, length, get_elem?, take, length-take, length-set,
  get_elem?-set, lt-get_elem?, get_elem?-take, ok, ◌>>=◌, Ensures, Ensures-bind,
}
use dns_pro.Runtime.TimerQueue.{TimerRegistration, TimerQueue, place, sift, release, remove_at}
use dns_pro.Runtime.TimerQueue.Order.{
  IsChild, Ordered, OrderedUp, OrderedDown, written, written-up, written-down, Ordered-agree,
  OrderedUp-agree, OrderedDown-agree,
}
use dns_pro.Runtime.TimerQueue.Nodes.{
  rank, key, key_of, InHeap, IsPlaced, Moved-refl, assign-same, assign-other, named,
}
use dns_pro.Runtime.TimerQueue.Sift.{Sifted, sift-Sifted}
use dns_pro.Runtime.TimerQueue.Remove.{IsQueue, Opened, Removed, released-Removed, same-cases}
use dns_pro.Protocol.Wire.Reads.{get_elem?-lt}

module _ (q : TimerQueue) (w : IsQueue q) (x r : ℕ) (at : get_elem? q.heap x ≡ some r) where
  abbrev last : ℕ
  last = length q.heap - 1

  abbrev popped : TimerQueue
  popped = record q { heap = take last q.heap }

  inside : x < length q.heap
  inside = lt-get_elem? q.heap x r at

  popped-size : length popped.heap ≡ last
  popped-size = omega (arith, length-take last q.heap)

  popped-node :
      (i id : ℕ) → get_elem? popped.heap i ≡ some id → (i < last) × (get_elem? q.heap i ≡ some id)
  popped-node i id h =
      let below : i < last = omega (arith, lt-get_elem? popped.heap i id h, popped-size) in
      (below, sym (get_elem?-take last q.heap i below) ∙ h)

  -- Nodes that hold the same registration are one.
  one_place : (i j id : ℕ) → get_elem? q.heap i ≡ some id → get_elem? q.heap j ≡ some id → i ≡ j
  one_place i j id h k = sym (w.valid.placed i id h) ∙ w.valid.placed j id k

  -- The node that goes is the last one.
  module _ (at_end : x ≡ last) where
    -- The other nodes are before the last one.
    others_below : (i id : ℕ) → id ≢ r → get_elem? q.heap i ≡ some id → i < last
    others_below i id differs h =
        let not_x : i ≢ x =
          λ e. differs (named (get_elem? q.heap x) at (ap (get_elem? q.heap) (sym e) ∙ h)) in
        omega (arith, lt-get_elem? q.heap i id h, at_end, not_x)

    popped-Opened : Opened q r popped
    popped-Opened = record {
      valid = record {
        placed = λ i id h. w.valid.placed i id (popped-node i id h).1;
        numbered = w.valid.numbered;
      };
      rest = refl;
      same_size = omega (arith, popped-size, inside);
      timers = λ id. refl;
      same = refl;
      aside = λ id away. refl;
      into =
          λ id differs (i, h). (i, get_elem?-take last q.heap i (others_below i id differs h) ∙ h);
      from = λ id (i, h). (
        (i, (popped-node i id h).1),
        λ e.
            let (below, here) = popped-node i id h in
            omega (arith, below, at_end, one_place i x r (here ∙ ap some e) at),
      );
    }

    popped-Sifted : Sifted popped popped
    popped-Sifted = (
      Moved-refl popped popped-Opened.valid,
      Ordered-agree (key q) (key popped) (length popped.heap) 0
          (λ i below. sym (
            ap (key_of q.store) (get_elem?-take last q.heap i (omega (arith, below, popped-size)))))
          (λ p c edge within. w.ordered p c edge (omega (arith, within, popped-size))),
    )

  module _ (before_end : x < last) (t : ℕ) (at_last : get_elem? q.heap last ≡ some t) where
    abbrev moved : TimerQueue
    moved = place popped x t

    moved-size : length moved.heap ≡ last
    unfolding place
    moved-size = length-set popped.heap x t ∙ popped-size

    moved-node :
        (i : ℕ)
        → i < last
        → ((i ≡ x) × (get_elem? moved.heap i ≡ some t))
          ⊎ ((i ≢ x) × (get_elem? moved.heap i ≡ get_elem? q.heap i))
    unfolding place
    moved-node i below =
        let written_node =
          get_elem?-set popped.heap x i t (omega (arith, before_end, popped-size)) in
        elim (Bool-cases (x == i)) [
          | inl same ↦ inl (ground (arith, same), written_node ∙ ground (arith, same))
          | inr differs ↦ inr (
            ground (arith, differs),
            written_node ∙ ground (arith, differs) ∙ get_elem?-take last q.heap i below,
          )
        ]

    moved-store :
        (id : ℕ)
        → ((id ≡ t) × (moved.store id ≡ record (q.store id) { heap_index = x }))
          ⊎ ((id ≢ t) × (moved.store id ≡ q.store id))
    unfolding place
    moved-store id = elim (same-cases id t) [
      | inl e ↦ inl (
        e,
        subst (λ s. moved.store s ≡ record (q.store s) { heap_index = x }) (sym e)
            (assign-same q.store t (record (q.store t) { heap_index = x })),
      )
      | inr differs ↦ inr (
        differs,
        assign-other q.store t id (record (q.store t) { heap_index = x }) (λ e. differs (sym e)),
      )
    ]

    tail-stays : t ≢ r
    tail-stays e = omega (arith, before_end, one_place x last r at (at_last ∙ ap some e))

    moved-timers :
        (id : ℕ) → moved.store id ≡ record (q.store id) { heap_index = (moved.store id).heap_index }
    moved-timers id = elim (moved-store id) [
      | inl (_, e) ↦
          e
          ∙ ap (λ i. record (q.store id) { heap_index = i })
              (sym (ap TimerRegistration.heap_index e))
      | inr (_, e) ↦
          e
          ∙ ap (λ i. record (q.store id) { heap_index = i })
              (sym (ap TimerRegistration.heap_index e))
    ]

    moved-below : (i id : ℕ) → get_elem? moved.heap i ≡ some id → i < last
    moved-below i id h = omega (arith, lt-get_elem? moved.heap i id h, moved-size)

    moved-IsPlaced : IsPlaced moved
    moved-IsPlaced = record {
      placed = λ i id h. elim (moved-node i (moved-below i id h)) [
        | inl (e, n) ↦ elim (moved-store id) [
          | inl (_, s) ↦ ap TimerRegistration.heap_index s ∙ sym e
          | inr (d, _) ↦ absurd (d (named (get_elem? moved.heap i) n h))
        ]
        | inr (_, n) ↦ elim (moved-store id) [
          | inl (e, _) ↦ absurd (
              omega (arith, moved-below i id h, one_place i last t (sym n ∙ h ∙ ap some e) at_last))
          | inr (_, s) ↦ ap TimerRegistration.heap_index s ∙ w.valid.placed i id (sym n ∙ h)
        ]
      ];
      numbered =
          λ id. omega (arith, w.valid.numbered id, ap TimerRegistration.sequence (moved-timers id));
    }

    moved-into : (id : ℕ) → id ≢ r → InHeap q id → InHeap moved id
    moved-into id differs (i, h) = elim (same-cases i last) [
      | inl e ↦
          let is_tail : id ≡ t =
            named (get_elem? q.heap last) at_last (ap (get_elem? q.heap) (sym e) ∙ h) in
          elim (moved-node x before_end) [
            | inl (_, n) ↦ (x, n ∙ ap some (sym is_tail))
            | inr (d, _) ↦ absurd (d refl)
          ]
      | inr apart ↦
          let below : i < last = omega (arith, lt-get_elem? q.heap i id h, apart) in
          elim (moved-node i below) [
            | inl (e, _) ↦
                absurd (differs (named (get_elem? q.heap x) at (ap (get_elem? q.heap) (sym e) ∙ h)))
            | inr (_, n) ↦ (i, n ∙ h)
          ]
    ]

    moved-from : (id : ℕ) → InHeap moved id → InHeap q id × (id ≢ r)
    moved-from id (i, h) = elim (moved-node i (moved-below i id h)) [
      | inl (_, n) ↦
          let is_tail : id ≡ t = named (get_elem? moved.heap i) n h in
          ((last, at_last ∙ ap some (sym is_tail)), λ e. tail-stays (sym is_tail ∙ e))
      | inr (apart, n) ↦ ((i, sym n ∙ h), λ e. apart (one_place i x r (sym n ∙ h ∙ ap some e) at))
    ]

    moved-Opened : Opened q r moved
    moved-Opened = record {
      valid = moved-IsPlaced;
      rest = unfold place in refl;
      same_size = omega (arith, moved-size, inside);
      timers = moved-timers;
      same = elim (moved-store r) [ inl (e, _) ↦ absurd (tail-stays (sym e)) | inr (_, s) ↦ s ];
      aside = λ id away. elim (moved-store id) [
        | inl (e, _) ↦ absurd (away (last, at_last ∙ ap some (sym e)))
        | inr (_, s) ↦ s
      ];
      into = moved-into;
      from = moved-from;
    }

    moved-key_of : (o : Option ℕ) → key_of q.store o ≡ key_of moved.store o
    moved-key_of none = refl
    moved-key_of (some id) = sym (ap rank (moved-timers id))

    moved-key : (i : ℕ) → i < last → written (key q) x (key q last) i ≡ key moved i
    moved-key i below = elim (moved-node i below) [
      | inl (e, n) ↦
          ground (arith, e, at_last) ∙ moved-key_of (some t) ∙ ap (key_of moved.store) (sym n)
      | inr (apart, n) ↦
          ground (arith, apart)
          ∙ moved-key_of (get_elem? q.heap i)
          ∙ ap (key_of moved.store) (sym n)
    ]

    smaller : Ordered (key q) last
    smaller p c edge within = w.ordered p c edge (omega (arith, within))

    moved-key_here : key moved x ≡ key q last
    moved-key_here = sym (moved-key x before_end) ∙ ground arith

    moved-key_parent : (y : ℕ) → IsChild y x → key moved y ≡ key q y
    moved-key_parent y child =
        let differs : (x == y) ≡ false = ground (arith, child) in
        sym (moved-key y (omega (arith, child, before_end))) ∙ ground (arith, differs)

    moved-up :
        (y : ℕ)
        → IsChild y x
        → key moved x < key moved y
        → OrderedUp (key moved) (length moved.heap) x
    moved-up y child less =
        subst (λ n. OrderedUp (key moved) n x) (sym moved-size)
          (OrderedUp-agree (written (key q) x (key q last)) (key moved) last x moved-key (
            written-up (key q) last x (key q last) smaller y child before_end
              (omega (arith, less, moved-key_here, moved-key_parent y child))))

    moved-down :
        ((y : ℕ) → IsChild y x → key moved y ≤ key moved x)
        → OrderedDown (key moved) (length moved.heap) x
    moved-down over =
        subst (λ n. OrderedDown (key moved) n x) (sym moved-size)
          (OrderedDown-agree (written (key q) x (key q last)) (key moved) last x moved-key (
            written-down (key q) last x (key q last) smaller before_end
              (λ y child. omega (arith, over y child, moved-key_here, moved-key_parent y child))))

    moved-sift : Ensures (Sifted moved) (sift moved x)
    moved-sift =
        sift-Sifted moved x moved-IsPlaced (omega (arith, before_end, moved-size)) moved-up
          moved-down

    remove_at-inner : remove_at q x ≡ (sift moved x >>= λ after. ok (r, release after r))
    unfolding remove_at
    remove_at-inner =
        let more : ltb x (length popped.heap) ≡ true = ground (arith, before_end, popped-size) in
        ground (arith, at, at_last, more)

  remove_at-end : x ≡ last → remove_at q x ≡ ok (r, release popped r)
  unfolding remove_at
  remove_at-end at_end =
      let no_more : ltb x (length popped.heap) ≡ false = ground (arith, at_end, popped-size) in
      let at_last : get_elem? q.heap last ≡ some r =
        subst (λ i. get_elem? q.heap i ≡ some r) at_end at in
      ground (arith, at, at_last, no_more)

  pub remove_at-Removed : Ensures (λ p. (p.0 ≡ r) × Removed q r p.1) (remove_at q x)
  remove_at-Removed = elim (same-cases x last) [
    | inl at_end ↦
        rw (remove_at-end at_end)
          (refl, released-Removed q r popped popped w (popped-Opened at_end) (popped-Sifted at_end))
    | inr not_end ↦
        let before_end : x < last = omega (arith, inside, not_end) in
        let (t, at_last) = get_elem?-lt q.heap last (omega (arith, inside)) in
        rw (remove_at-inner before_end t at_last) (
          Ensures-bind (Sifted (moved before_end t at_last)) _ (sift (moved before_end t at_last) x)
            _ (moved-sift before_end t at_last)
            (λ after s. (
              refl,
              released-Removed q r (moved before_end t at_last) after w
                  (moved-Opened before_end t at_last) s,
            )))
  ]
