-- ===== src/Service/Examples.antt =====
-- A run of the filter updates: one update of one rule is queued, and the queue is then sealed.
use dns_pro.Base.{
  ℕ, ◌≤◌, ◌<◌, ◌≡◌, refl, ◌⊎◌, false, none, some, List, [], ◌∷◌, arith, length, bytes_eq, count, ok,
}
use dns_pro.Protocol.Wire.{Bytes}
use dns_pro.Protocol.DomainName.{
  from_text, text_loop, text_round, from_labels, check_labels, key_of,
}
use dns_pro.Service.FilterUpdates.{
  FilterUpdateLimits, FilterUpdateController, FilterUpdateResult, new_controller, submit_replace,
  submit_with, submit_measured, rejection, validate_filter_rule_set, measure_rules, measure_rule,
  measure_name, enqueue, rule_count_limit_exceeded, rule_bytes_limit_exceeded,
}
use dns_pro.Service.FilterUpdates.Rules.{
  Fits, IsRefused, raw_total, normalized_total, validate_filter_rule_set_lem,
}
use dns_pro.Service.FilterUpdates.Queue.{IsController, is_answer}
use dns_pro.Service.FilterUpdates.Promises.{
  Steps, submits, done, more, closed_with, Steps-new_controller, closed_with-answers,
}

abbrev limits : FilterUpdateLimits
limits = record {
  maximum_rule_count = 2;
  maximum_normalized_rule_bytes = 10;
  maximum_queued_rule_bytes = 20;
}

abbrev one_rule : List Bytes
one_rule = (b'x' ∷ []) ∷ []

abbrev start_state : FilterUpdateController
start_state = record {
  limits = limits;
  pending = [];
  inflight = none;
  queued_rule_bytes = 0;
  sealed = false;
  terminal_detach_requested = false;
  promises = 0;
  answers = [];
}

new_controller-start_state : new_controller 1 limits ≡ some start_state
unfolding new_controller
new_controller-start_state = refl

abbrev queued_state : FilterUpdateController
queued_state = enqueue start_state one_rule 1

submitted : submit_replace start_state one_rule ≡ ok queued_state
unfolding submit_replace submit_with submit_measured validate_filter_rule_set measure_rules
    measure_rule measure_name rejection from_text text_loop text_round from_labels check_labels
    key_of bytes_eq
submitted = refl

one_submission : Steps start_state queued_state
one_submission =
    more start_state queued_state queued_state (submits start_state one_rule queued_state submitted)
      (done queued_state)

validate_filter_rule_set_lem_example :
    (Fits one_rule limits
      × (validate_filter_rule_set one_rule limits
          ≡ ok (record {
            raw_bytes = raw_total one_rule;
            normalized_bytes = normalized_total one_rule;
          })))
    ⊎ ((limits.maximum_rule_count < length one_rule)
        × IsRefused (validate_filter_rule_set one_rule limits) rule_count_limit_exceeded)
    ⊎ ((length one_rule ≤ limits.maximum_rule_count)
        × (¬ Fits one_rule limits)
        × IsRefused (validate_filter_rule_set one_rule limits) rule_bytes_limit_exceeded)
validate_filter_rule_set_lem_example = validate_filter_rule_set_lem one_rule limits

Steps-new_controller_example : IsController queued_state
Steps-new_controller_example =
    Steps-new_controller 1 limits start_state queued_state new_controller-start_state one_submission

abbrev first_promise : ℕ
first_promise = 0

abbrev once : ℕ
once = 1

abbrev published : FilterUpdateResult
published = ok (record { generation = 2; rule_count = 1 })

closed_with-answers_example :
    count (is_answer first_promise) (closed_with queued_state published).answers ≡ once
closed_with-answers_example =
    closed_with-answers 1 limits start_state queued_state published first_promise
      new_controller-start_state one_submission (omega arith)
