-- ===== src/Examples/Tasks.antt =====
-- Two requests whose tasks take turns.
use privacy_proxy.Base.{ℕ, zero, suc, Option, none, some, List, [], ◌∷◌, ◌≡◌, refl}
use privacy_proxy.Text.{
  equal, is_empty, contains, starts_with, to_ascii_lowercase, is_ascii_alphanumeric,
}
use privacy_proxy.FieldRules.{normalize_field_name}
use privacy_proxy.Proxy.Headers.{should_skip_header, sensitive_header_kind}
use privacy_proxy.Proxy.Body.{decode_request_body, redact_body}
use privacy_proxy.Proxy.Handler.{header_value}
use privacy_proxy.Proxy.Actions.{Action, act, default_metrics, request_actions}
use privacy_proxy.Proxy.Schedule.{
  Takes, here, there, Finished, System, arrive, access, Reach, start, later, serial,
}
use privacy_proxy.Proxy.Schedule.Serial.{SameCounts, Reach-serial}
use privacy_proxy.Examples.Setting.{sample, engine}
use privacy_proxy.Examples.Requests.{network, request}

abbrev Sys : Type 0
Sys = System network sample engine

-- Both requests have arrived, and no access is made.
abbrev two_requests : Sys
two_requests = record {
  metrics = default_metrics;
  tasks =
      request_actions network sample engine request
      ∷ request_actions network sample engine request
      ∷ [];
  arrived = request ∷ request ∷ [];
}

two_requests-Reach : Reach network sample engine two_requests
two_requests-Reach = later (later start (arrive request)) (arrive request)

-- The task at a place makes its next access, if it has one.
unfoldable next_of :
    ℕ
    → (tasks : List (List Action))
    → Option ((action : Action) × (tasks' : List (List Action)) × Takes tasks action tasks')
next_of i [] = none
next_of zero ([] ∷ tasks) = none
next_of zero ((action ∷ actions) ∷ tasks) = some (action, actions ∷ tasks, here)
next_of (suc i) (task ∷ tasks) = elim (next_of i tasks) [
  | none ↦ none
  | some (action, tasks', takes) ↦ some (action, task ∷ tasks', there takes)
]

record Ran : Type 0 where
  last : Sys
  reached : Reach network sample engine last

unfoldable turns : List ℕ → Ran → Ran
unfolding next_of
turns [] ran = ran
turns (i ∷ places) ran = elim (next_of i ran.last.tasks) [
  | none ↦ turns places ran
  | some (action, tasks, takes) ↦ turns places (record {
    last = record ran.last { metrics = act action ran.last.metrics; tasks = tasks };
    reached = later ran.reached (access takes);
  })
]

abbrev taken : Ran
unfolding turns
taken =
    turns (0 ∷ 1 ∷ 1 ∷ 0 ∷ 0 ∷ 1 ∷ 1 ∷ 1 ∷ 0 ∷ 1 ∷ 0 ∷ 0 ∷ 1 ∷ 0 ∷ [])
      (record { last = two_requests; reached = two_requests-Reach })

all_taken :
    Finished taken.last.tasks
    × (taken.last.metrics.requests ≡ 2)
    × (taken.last.metrics.redactions_total ≡ 2)
unfolding taken turns act request_actions decode_request_body header_value equal redact_body
    is_empty should_skip_header sensitive_header_kind contains normalize_field_name
    is_ascii_alphanumeric to_ascii_lowercase starts_with
all_taken = ((refl, (refl, tt)), refl, refl)

Reach-serial_example :
    SameCounts taken.last.metrics (serial network sample engine taken.last.arrived)
Reach-serial_example = Reach-serial network sample engine taken.last taken.reached all_taken.0
