-- ===== src/Service/FilterUpdates.antt =====
-- FilterUpdateController.h and FilterUpdateController.cpp: the limits on sets of rules, and the queue
-- of updates. A promise is named by the number of submissions before it, and what is set in promises
-- is a list. Each operation is a critical section with the promises that the code answers next to it,
-- outside of the lock; what `apply` answers, and whether it has committed by then, are arguments.
pub mod Rules
pub mod Queue
pub mod Submit
pub mod Promises
use dns_pro.Base.{
  ◌>>◌, ℕ, ◌+◌, ◌-◌, ◌^◌, min, Bool, true, false, ◌&&◌, ◌||◌, Option, none, some, List, [], ◌∷◌,
  ◌++◌, map, ltb, leb, ◌==◌, if◌then◌else◌, length, Outcome, ok, err, out_of_bounds, out_of_fuel,
  ◌>>=◌, refuse_if,
}
use dns_pro.Protocol.Wire.{Bytes}
use dns_pro.Protocol.DomainName.{DomainName, DomainNameError, from_text}
use dns_pro.Filter.Blocklist.{BuildFailure}

pub data FilterUpdateErrorCode : Type 0 where
  service_not_running control_plane_disabled shutting_down build_failed : FilterUpdateErrorCode
  generation_exhausted queue_full rule_count_limit_exceeded : FilterUpdateErrorCode
  rule_bytes_limit_exceeded queue_bytes_limit_exceeded internal_error : FilterUpdateErrorCode

pub record FilterUpdateError : Type 0 where
  pub code : FilterUpdateErrorCode
  pub build_error : Option BuildFailure
  pub actual : ℕ
  pub limit : ℕ

abbrev pub update_error : FilterUpdateErrorCode → ℕ → ℕ → FilterUpdateError
update_error code actual limit = record {
  code = code;
  build_error = none;
  actual = actual;
  limit = limit;
}

pub record FilterUpdateLimits : Type 0 where
  pub maximum_rule_count : ℕ
  pub maximum_normalized_rule_bytes : ℕ
  pub maximum_queued_rule_bytes : ℕ

pub record FilterRuleMeasurement : Type 0 where
  pub raw_bytes : ℕ
  pub normalized_bytes : ℕ

abbrev pub size_max : ℕ
size_max = 2 ^ 64 - 1

unfoldable pub saturated_add : ℕ → ℕ → ℕ
saturated_add lhs rhs = if ltb (size_max - lhs) rhs then size_max else lhs + rhs

-- size > limit - std::min(used, limit)
abbrev pub exceeds : ℕ → ℕ → ℕ → Bool
exceeds size used limit = ltb (limit - min used limit) size

abbrev pub bytes_error : FilterUpdateLimits → ℕ → ℕ → FilterUpdateError
bytes_error limits used size =
    update_error rule_bytes_limit_exceeded (saturated_add used size)
      limits.maximum_normalized_rule_bytes

-- The second half of a round: the name of the rule, where it is one.
unfoldable pub measure_name :
    FilterUpdateLimits
    → FilterRuleMeasurement
    → Outcome DomainNameError DomainName
    → Outcome FilterUpdateError FilterRuleMeasurement
measure_name limits measured (ok name) = do
  refuse_if
      (exceeds (length name.canonical_key) measured.normalized_bytes
        limits.maximum_normalized_rule_bytes)
      (bytes_error limits measured.normalized_bytes (length name.canonical_key))
  ok (record measured { normalized_bytes = measured.normalized_bytes + length name.canonical_key })
measure_name limits measured (err e) = ok measured
measure_name limits measured out_of_bounds = out_of_bounds
measure_name limits measured out_of_fuel = out_of_fuel

unfoldable pub measure_rule :
    FilterUpdateLimits
    → FilterRuleMeasurement
    → Bytes
    → Outcome FilterUpdateError FilterRuleMeasurement
measure_rule limits measured rule = do
  refuse_if (exceeds (length rule) measured.raw_bytes limits.maximum_normalized_rule_bytes)
      (bytes_error limits measured.raw_bytes (length rule))
  measure_name limits (record measured { raw_bytes = measured.raw_bytes + length rule })
      (from_text rule)

unfoldable pub measure_rules :
    FilterUpdateLimits
    → FilterRuleMeasurement
    → List Bytes
    → Outcome FilterUpdateError FilterRuleMeasurement
measure_rules limits measured [] = ok measured
measure_rules limits measured (rule ∷ rules) =
    measure_rule limits measured rule >>= λ after. measure_rules limits after rules

unfoldable pub validate_filter_rule_set :
    List Bytes → FilterUpdateLimits → Outcome FilterUpdateError FilterRuleMeasurement
validate_filter_rule_set rules limits = do
  refuse_if (ltb limits.maximum_rule_count (length rules))
      (update_error rule_count_limit_exceeded (length rules) limits.maximum_rule_count)
  measure_rules limits (record { raw_bytes = 0; normalized_bytes = 0 }) rules

pub record FilterVersion : Type 0 where
  pub generation : ℕ
  pub rule_count : ℕ

abbrev pub FilterUpdateResult : Type 0
FilterUpdateResult = Outcome FilterUpdateError FilterVersion

pub record Command : Type 0 where
  pub promise : ℕ
  pub rules : List Bytes
  pub accounted_bytes : ℕ

pub record FilterUpdateController : Type 0 where
  pub limits : FilterUpdateLimits
  pub pending : List Command
  pub inflight : Option Command
  pub queued_rule_bytes : ℕ
  pub sealed : Bool
  pub terminal_detach_requested : Bool
  pub promises : ℕ
  pub answers : List (ℕ × FilterUpdateResult)

-- The constructor refuses limits of zero and a publication without a generation.
unfoldable pub new_controller : ℕ → FilterUpdateLimits → Option FilterUpdateController
new_controller generation limits =
    if generation == 0
      || limits.maximum_rule_count == 0
      || limits.maximum_normalized_rule_bytes == 0
      || limits.maximum_queued_rule_bytes == 0
    then none
    else some (record {
      limits = limits;
      pending = [];
      inflight = none;
      queued_rule_bytes = 0;
      sealed = false;
      terminal_detach_requested = false;
      promises = 0;
      answers = [];
    })

abbrev pub maximum_pending_updates : ℕ
maximum_pending_updates = 64

abbrev pub complete : FilterUpdateController → ℕ → FilterUpdateResult → FilterUpdateController
complete c promise result = record c { answers = c.answers ++ (promise, result) ∷ [] }

-- The test under the lock, of an update with so many bytes.
unfoldable pub rejection : FilterUpdateController → ℕ → Option FilterUpdateError
rejection c accounted_bytes =
    if c.sealed
    then some (update_error shutting_down 0 0)
    else if leb maximum_pending_updates (length c.pending)
    then some (update_error queue_full (length c.pending + 1) maximum_pending_updates)
    else if exceeds accounted_bytes c.queued_rule_bytes c.limits.maximum_queued_rule_bytes
    then some (
        update_error queue_bytes_limit_exceeded (saturated_add c.queued_rule_bytes accounted_bytes)
          c.limits.maximum_queued_rule_bytes)
    else none

abbrev pub enqueue : FilterUpdateController → List Bytes → ℕ → FilterUpdateController
enqueue c rules accounted_bytes = record c {
  pending =
      c.pending
      ++ record { promise = c.promises; rules = rules; accounted_bytes = accounted_bytes } ∷ [];
  queued_rule_bytes = c.queued_rule_bytes + accounted_bytes;
  promises = c.promises + 1;
}

abbrev pub answer_new : FilterUpdateController → FilterUpdateError → FilterUpdateController
answer_new c error = complete (record c { promises = c.promises + 1 }) c.promises (err error)

unfoldable pub submit_measured :
    FilterUpdateController → List Bytes → FilterRuleMeasurement → FilterUpdateController
submit_measured c rules measured = elim (rejection c measured.raw_bytes) [
  | some error ↦ answer_new c error
  | none ↦ enqueue c rules measured.raw_bytes
]

unfoldable pub submit_with :
    FilterUpdateController
    → List Bytes
    → Outcome FilterUpdateError FilterRuleMeasurement
    → Outcome ⊥ FilterUpdateController
submit_with c rules (ok measured) = ok (submit_measured c rules measured)
submit_with c rules (err error) = ok (answer_new c error)
submit_with c rules out_of_bounds = out_of_bounds
submit_with c rules out_of_fuel = out_of_fuel

-- The promise of the future that it returns is the one that it takes.
unfoldable pub submit_replace :
    FilterUpdateController → List Bytes → Outcome ⊥ FilterUpdateController
submit_replace c rules = submit_with c rules (validate_filter_rule_set rules c.limits)

-- The first critical section of a round of `run`: the next update goes in flight.
unfoldable pub take_next : FilterUpdateController → List Command → FilterUpdateController
take_next c [] = c
take_next c (command ∷ commands) = record c {
  inflight = some command;
  pending = commands;
  queued_rule_bytes = c.queued_rule_bytes - min c.queued_rule_bytes command.accounted_bytes;
}

-- complete and then inflight_.reset(), which the code does under the lock, as one step.
unfoldable pub complete_inflight :
    FilterUpdateController → Option Command → FilterUpdateResult → FilterUpdateController
complete_inflight c none result = c
complete_inflight c (some command) result = record (complete c command.promise result) {
  inflight = none;
}

abbrev pub is_error : FilterUpdateResult → Bool
is_error (ok version) = false
is_error (err error) = true
is_error out_of_bounds = true
is_error out_of_fuel = true

-- The end of a round, with what `apply` returned. After a commit an error leaves the update in
-- flight and unanswered, and the loop.
unfoldable pub end_round :
    FilterUpdateController → Bool → FilterUpdateResult → FilterUpdateController
end_round c committed result =
    if is_error result && committed then c else complete_inflight c c.inflight result

abbrev pub cancelled_answers : List Command → List (ℕ × FilterUpdateResult)
cancelled_answers commands =
    map (λ (command : Command). (command.promise, err (update_error shutting_down 0 0))) commands

-- Its critical section, with the answers to the cancelled updates that the code gives after it. The
-- requests to stop a build and the publication, and sealed_acknowledged_, are left out.
unfoldable pub seal : FilterUpdateController → FilterUpdateController
seal c = if c.sealed then c else record c {
  sealed = true;
  pending = [];
  queued_rule_bytes = 0;
  answers = c.answers ++ cancelled_answers c.pending;
}

unfoldable pub request_terminal_detach : FilterUpdateController → FilterUpdateController
request_terminal_detach c = record (seal c) { terminal_detach_requested = true }
