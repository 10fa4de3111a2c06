-- ===== src/Service/FilterUpdates/Promises.antt =====
-- Sequences of operations on the queue of updates, and what becomes of each promise.
use dns_pro.Base.{
  ℕ, ◌<◌, ◌≡◌, refl, ap, ◌∙◌, inl, inr, Bool, Bool-cases, ◌&&◌, Option, none, some, List, arith,
  ltb, length, one_if, count, count-append_one, count-le-length, ok, Ensures-ok,
}
use dns_pro.Protocol.Wire.{Bytes}
use dns_pro.Service.FilterUpdates.{
  FilterUpdateLimits, FilterUpdateResult, Command, FilterUpdateController, new_controller,
  submit_replace, take_next, complete_inflight, is_error, end_round, seal, request_terminal_detach,
}
use dns_pro.Service.FilterUpdates.Submit.{submit_replace-IsController}
use dns_pro.Service.FilterUpdates.Queue.{
  IsController, is_answer, is_command, count_inflight, new_controller-IsController,
  take_next-IsController, complete_inflight-IsController, seal-IsController, detach-IsController,
  seal-cases,
}

-- The critical sections, in any order; a runner takes an update when none is in flight.
pub data Step : FilterUpdateController → FilterUpdateController → Type 0 where
  submits :
      (c : FilterUpdateController) (rules : List Bytes) (after : FilterUpdateController)
      → submit_replace c rules ≡ ok after
      → Step c after
  takes : (c : FilterUpdateController) → c.inflight ≡ none → Step c (take_next c c.pending)
  ends :
      (c : FilterUpdateController) (committed : Bool) (result : FilterUpdateResult)
      → Step c (end_round c committed result)
  seals : (c : FilterUpdateController) → Step c (seal c)
  detaches : (c : FilterUpdateController) → Step c (request_terminal_detach c)

pub data Steps : FilterUpdateController → FilterUpdateController → Type 0 where
  done : (c : FilterUpdateController) → Steps c c
  more : (a b c : FilterUpdateController) → Step a b → Steps b c → Steps a c

end_round-IsController :
    (c : FilterUpdateController) (committed : Bool) (result : FilterUpdateResult)
    → IsController c
    → IsController (end_round c committed result)
unfolding end_round
end_round-IsController c committed result w = elim (Bool-cases (is_error result && committed)) [
  | inl leaves ↦ rw leaves w
  | inr answers ↦ rw answers (complete_inflight-IsController c c.inflight result refl w)
]

Step-IsController : (a b : FilterUpdateController) → Step a b → IsController a → IsController b
Step-IsController _ _ (submits c rules after e) w =
    Ensures-ok IsController (submit_replace c rules) after (submit_replace-IsController c rules w) e
Step-IsController _ _ (takes c idle) w = take_next-IsController c c.pending refl idle w
Step-IsController _ _ (ends c committed result) w = end_round-IsController c committed result w
Step-IsController _ _ (seals c) w = seal-IsController c w
Step-IsController _ _ (detaches c) w = detach-IsController c w

Steps-IsController : (a b : FilterUpdateController) → Steps a b → IsController a → IsController b
Steps-IsController _ _ (done c) w = w
Steps-IsController _ _ (more a b c step steps) w =
    Steps-IsController b c steps (Step-IsController a b step w)

-- The controller at the end: it is sealed, and the update in flight, if there is one, is answered.
abbrev pub closed_with : FilterUpdateController → FilterUpdateResult → FilterUpdateController
closed_with c result = complete_inflight (seal c) (seal c).inflight result

nothing_pending : (c : FilterUpdateController) → IsController c → length (seal c).pending ≡ 0
nothing_pending c w = elim (seal-cases c) [
  | inl (already, same) ↦ elim w.shut [
    | inl unsealed ↦ absurd (ground (arith, already, unsealed))
    | inr nothing ↦ ap (λ (t : FilterUpdateController). length t.pending) same ∙ nothing
  ]
  | inr (_, same) ↦ ap (λ (t : FilterUpdateController). length t.pending) same
]

seal-promises : (c : FilterUpdateController) → (seal c).promises ≡ c.promises
seal-promises c = elim (seal-cases c) [
  | inl (_, same) ↦ ap FilterUpdateController.promises same
  | inr (_, same) ↦ ap FilterUpdateController.promises same
]

-- With nothing pending and nothing in flight, each promise is answered.
answered :
    (c : FilterUpdateController) (inflight : Option Command) (result : FilterUpdateResult)
    (promise : ℕ)
    → c.inflight ≡ inflight
    → length c.pending ≡ 0
    → IsController c
    → count (is_answer promise) (complete_inflight c inflight result).answers
      ≡ one_if (ltb promise c.promises)
unfolding complete_inflight
answered c none result promise same nothing w = omega (
  arith,
  w.accounted promise,
  count-le-length (is_command promise) c.pending,
  nothing,
  ap (count_inflight promise) same,
)
answered c (some command) result promise same nothing w = omega (
  arith,
  w.accounted promise,
  count-le-length (is_command promise) c.pending,
  nothing,
  ap (count_inflight promise) same,
  count-append_one (is_answer promise) c.answers (command.promise, result),
)

-- In every state that a new controller reaches, in whatever order its critical sections run, the
-- queue is within its 64 updates and its bytes, which are those of the updates in it, and every
-- promise that was made, and no other, is pending, in flight or answered, in one place and once.
pub Steps-new_controller :
    (generation : ℕ) (limits : FilterUpdateLimits) (start c : FilterUpdateController)
    → new_controller generation limits ≡ some start
    → Steps start c
    → IsController c
Steps-new_controller generation limits start c e steps =
    Steps-IsController start c steps (new_controller-IsController generation limits start e)

-- In every state that a new controller reaches, sealing it and answering the update in flight leaves
-- every promise that was made answered, exactly once.
pub closed_with-answers :
    (generation : ℕ) (limits : FilterUpdateLimits) (start c : FilterUpdateController)
    (result : FilterUpdateResult) (promise : ℕ)
    → new_controller generation limits ≡ some start
    → Steps start c
    → promise < c.promises
    → count (is_answer promise) (closed_with c result).answers ≡ 1
closed_with-answers generation limits start c result promise e steps made =
    let w = Steps-new_controller generation limits start c e steps in
    let every =
      answered (seal c) (seal c).inflight result promise refl (nothing_pending c w)
        (seal-IsController c w) in
    ground (arith, every, seal-promises c, made)
