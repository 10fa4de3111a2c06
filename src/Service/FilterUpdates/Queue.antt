-- ===== src/Service/FilterUpdates/Queue.antt =====
-- The queue of updates: its bounds, what is accepted, and that each promise is answered once.
use dns_pro.Base.{
  ℕ, ◌+◌, ◌≤◌, ◌<◌, ◌≡◌, refl, sym, ap, subst, ◌⊎◌, inl, inr, Bool, true, false, ◌||◌, Option, none,
  some, List, [], ◌∷◌, ◌++◌, arith, ltb, ◌==◌, Bool-cases, length, length-append, one_if, count,
  count-append_one, err,
}
use dns_pro.Protocol.Wire.{Bytes}
use dns_pro.Service.FilterUpdates.{
  FilterUpdateError, FilterUpdateLimits, FilterUpdateResult, Command, FilterUpdateController,
  new_controller, maximum_pending_updates, enqueue, answer_new, take_next, complete_inflight,
  cancelled_answers, seal, request_terminal_detach,
}

abbrev pub bytes_of : List Command → ℕ
bytes_of [] = 0
bytes_of (command ∷ commands) = command.accounted_bytes + bytes_of commands

abbrev pub is_command : ℕ → Command → Bool
is_command promise command = command.promise == promise

abbrev pub is_answer : ℕ → ℕ × FilterUpdateResult → Bool
is_answer promise answer = answer.0 == promise

abbrev pub count_inflight : ℕ → Option Command → ℕ
count_inflight promise none = 0
count_inflight promise (some command) = one_if (is_command promise command)

-- How often a promise is pending, in flight or answered.
abbrev pub tally : FilterUpdateController → ℕ → ℕ
tally c promise =
    count (is_command promise) c.pending
    + count_inflight promise c.inflight
    + count (is_answer promise) c.answers

-- The queue is within its bounds, and each promise that was made is in one place.
pub record IsController (c : FilterUpdateController) : Type 0 where
  pub fits : length c.pending ≤ maximum_pending_updates
  pub summed : c.queued_rule_bytes ≡ bytes_of c.pending
  pub bounded : c.queued_rule_bytes ≤ c.limits.maximum_queued_rule_bytes
  pub shut : (c.sealed ≡ false) ⊎ (length c.pending ≡ 0)
  pub accounted : (promise : ℕ) → tally c promise ≡ one_if (ltb promise c.promises)

bytes_of-append :
    (commands : List Command) (command : Command)
    → bytes_of (commands ++ command ∷ []) ≡ bytes_of commands + command.accounted_bytes
bytes_of-append [] command = omega arith
bytes_of-append (c ∷ commands) command = omega (arith, bytes_of-append commands command)

count-append :
    {A : Type 0} (test : A → Bool) (xs ys : List A)
    → count test (xs ++ ys) ≡ count test xs + count test ys
count-append test [] ys = omega arith
count-append test (x ∷ xs) ys = omega (arith, count-append test xs ys)

count-cancelled :
    (promise : ℕ) (commands : List Command)
    → count (is_answer promise) (cancelled_answers commands) ≡ count (is_command promise) commands
count-cancelled promise [] = refl
count-cancelled promise (c ∷ commands) = omega (arith, count-cancelled promise commands)

next_promise :
    (promise promises : ℕ)
    → one_if (ltb promise promises) + one_if (promises == promise)
      ≡ one_if (ltb promise (promises + 1))
next_promise promise promises = ground arith

abbrev empty_controller : FilterUpdateLimits → FilterUpdateController
empty_controller limits = record {
  limits = limits;
  pending = [];
  inflight = none;
  queued_rule_bytes = 0;
  sealed = false;
  terminal_detach_requested = false;
  promises = 0;
  answers = [];
}

pub empty-IsController : (limits : FilterUpdateLimits) → IsController (empty_controller limits)
empty-IsController limits = record {
  fits = omega arith;
  summed = refl;
  bounded = omega arith;
  shut = inl refl;
  accounted = λ promise. ground arith;
}

pub new_controller-IsController :
    (generation : ℕ) (limits : FilterUpdateLimits) (c : FilterUpdateController)
    → new_controller generation limits ≡ some c
    → IsController c
unfolding new_controller
new_controller-IsController generation limits c e =
    elim (Bool-cases (
      generation == 0
      || limits.maximum_rule_count == 0
      || limits.maximum_normalized_rule_bytes == 0
      || limits.maximum_queued_rule_bytes == 0)) [
        | inl refused ↦ absurd (ground (arith, refused, e))
        | inr accepted ↦
            subst IsController (some_same (ground (arith, accepted)) e) (empty-IsController limits)
      ]
  where
    some_same :
        {o : Option FilterUpdateController} {a b : FilterUpdateController}
        → o ≡ some a
        → o ≡ some b
        → a ≡ b
    some_same f g = cc

pub enqueue-IsController :
    (c : FilterUpdateController) (rules : List Bytes) (size : ℕ)
    → IsController c
    → c.sealed ≡ false
    → length c.pending < maximum_pending_updates
    → c.queued_rule_bytes + size ≤ c.limits.maximum_queued_rule_bytes
    → IsController (enqueue c rules size)
enqueue-IsController c rules size w unsealed room fits = record {
  fits = omega (
    arith,
    room,
    length-append c.pending
        (record { promise = c.promises; rules = rules; accounted_bytes = size } ∷ []),
  );
  summed = omega (
    arith,
    w.summed,
    bytes_of-append c.pending
        (record { promise = c.promises; rules = rules; accounted_bytes = size }),
  );
  bounded = fits;
  shut = inl unsealed;
  accounted = λ promise. omega (
    arith,
    count-append_one (is_command promise) c.pending
        (record { promise = c.promises; rules = rules; accounted_bytes = size }),
    next_promise promise c.promises,
    w.accounted promise,
  );
}

pub answer_new-IsController :
    (c : FilterUpdateController) (error : FilterUpdateError)
    → IsController c
    → IsController (answer_new c error)
answer_new-IsController c error w = record {
  fits = w.fits;
  summed = w.summed;
  bounded = w.bounded;
  shut = w.shut;
  accounted = λ promise. omega (
    arith,
    count-append_one (is_answer promise) c.answers (c.promises, err error),
    next_promise promise c.promises,
    w.accounted promise,
  );
}

pub take_next-IsController :
    (c : FilterUpdateController) (commands : List Command)
    → c.pending ≡ commands
    → c.inflight ≡ none
    → IsController c
    → IsController (take_next c commands)
unfolding take_next
take_next-IsController c [] same idle w = w
take_next-IsController c (command ∷ commands) same idle w = record {
  fits = omega (arith, w.fits, ap length same);
  summed = omega (arith, w.summed, ap bytes_of same);
  bounded = omega (arith, w.bounded);
  shut = elim w.shut [
    | inl unsealed ↦ inl unsealed
    | inr nothing ↦ absurd (omega (arith, nothing, ap length same))
  ];
  accounted = λ promise. omega (
    arith,
    w.accounted promise,
    ap (count (is_command promise)) same,
    ap (count_inflight promise) idle,
  );
}

pub complete_inflight-IsController :
    (c : FilterUpdateController) (inflight : Option Command) (result : FilterUpdateResult)
    → c.inflight ≡ inflight
    → IsController c
    → IsController (complete_inflight c inflight result)
unfolding complete_inflight
complete_inflight-IsController c none result same w = w
complete_inflight-IsController c (some command) result same w = record {
  fits = w.fits;
  summed = w.summed;
  bounded = w.bounded;
  shut = w.shut;
  accounted = λ promise. omega (
    arith,
    w.accounted promise,
    count-append_one (is_answer promise) c.answers (command.promise, result),
    ap (count_inflight promise) same,
  );
}

abbrev sealed_now : FilterUpdateController → FilterUpdateController
sealed_now c = record c {
  sealed = true;
  pending = [];
  queued_rule_bytes = 0;
  answers = c.answers ++ cancelled_answers c.pending;
}

pub seal-cases :
    (c : FilterUpdateController)
    → ((c.sealed ≡ true) × (seal c ≡ c)) ⊎ ((c.sealed ≡ false) × (seal c ≡ sealed_now c))
unfolding seal
seal-cases c = elim (Bool-cases c.sealed) [
  | inl already ↦ inl (already, ground (arith, already))
  | inr unsealed ↦ inr (unsealed, ground (arith, unsealed))
]

pub seal-IsController : (c : FilterUpdateController) → IsController c → IsController (seal c)
seal-IsController c w = elim (seal-cases c) [
  | inl (_, same) ↦ subst IsController (sym same) w
  | inr (_, same) ↦ subst IsController (sym same) (record {
    fits = omega arith;
    summed = refl;
    bounded = omega arith;
    shut = inr refl;
    accounted = λ promise. omega (
      arith,
      w.accounted promise,
      count-append (is_answer promise) c.answers (cancelled_answers c.pending),
      count-cancelled promise c.pending,
    );
  })
]

pub detach-IsController :
    (c : FilterUpdateController) → IsController c → IsController (request_terminal_detach c)
unfolding request_terminal_detach
detach-IsController c w =
    let v = seal-IsController c w in
    record {
      fits = v.fits;
      summed = v.summed;
      bounded = v.bounded;
      shut = v.shut;
      accounted = v.accounted;
    }
