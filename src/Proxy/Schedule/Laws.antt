-- ===== src/Proxy/Schedule/Laws.antt =====
-- What the accesses add up to, in whatever order the tasks make them.
use privacy_proxy.Base.{ℕ, ◌+◌, ◌^◌, ◌<◌, List, [], ◌∷◌, ◌≡◌, refl, sym, ap, ◌∙◌, subst, arith}
use privacy_proxy.External.{External}
use privacy_proxy.Stats.Laws.{Fits, merge_counts-Fits}
use privacy_proxy.Engine.Patterns.{Engine}
use privacy_proxy.Proxy.Metrics.{ProxyMetrics}
use privacy_proxy.Proxy.Metrics.Laws.{add_counts-merge_counts}
use privacy_proxy.Proxy.Handler.{Network, Request}
use privacy_proxy.Proxy.Actions.{
  Action, add_request, add_upstream_error, add_rejected_payload, add_request_bytes,
  add_forwarded_bytes, add_redactions, add_by_type, act, run, default_metrics, request_actions,
}
use privacy_proxy.Proxy.Actions.Laws.{proxy-run}
use privacy_proxy.Proxy.Schedule.{
  Takes, here, there, Finished, System, arrive, access, Reach, start, later, serial,
}

-- The counters are u64 values.
abbrev pub AreU64 : ProxyMetrics → Type 0
AreU64 m =
    (m.requests < 2 ^ 64)
    × (m.upstream_errors < 2 ^ 64)
    × (m.rejected_payloads < 2 ^ 64)
    × (m.request_bytes < 2 ^ 64)
    × (m.forwarded_bytes < 2 ^ 64)
    × (m.redactions_total < 2 ^ 64)
    × Fits m.redactions_by_type

-- A reading of the metrics to which each access adds an amount, up to a normal form of numbers: the
-- remainder for a counter that wraps, the minimum with the bound for one that saturates.
pub record Reading : Type 0 where
  pub read : ProxyMetrics → ℕ
  pub amount : Action → ℕ
  pub norm : ℕ → ℕ
  pub norm-add : (a b : ℕ) → norm (norm a + b) ≡ norm (a + b)
  pub read-act :
      (action : Action) (m : ProxyMetrics)
      → AreU64 m
      → norm (read (act action m)) ≡ norm (read m + amount action)
  pub norm-read : (m : ProxyMetrics) → AreU64 m → norm (read m) ≡ read m
  pub read-default : read default_metrics ≡ 0

abbrev load : (Action → ℕ) → List Action → ℕ
load amount [] = 0
load amount (action ∷ actions) = amount action + load amount actions

abbrev pending : (Action → ℕ) → List (List Action) → ℕ
pending amount [] = 0
pending amount (task ∷ tasks) = load amount task + pending amount tasks

pending-Takes :
    (amount : Action → ℕ) {tasks tasks' : List (List Action)} {action : Action}
    → Takes tasks action tasks'
    → pending amount tasks ≡ amount action + pending amount tasks'
pending-Takes amount here = omega arith
pending-Takes amount (there takes) = omega (arith, pending-Takes amount takes)

pending-Finished :
    (amount : Action → ℕ) (tasks : List (List Action)) → Finished tasks → pending amount tasks ≡ 0
pending-Finished amount [] h = refl
pending-Finished amount ([] ∷ tasks) h = omega (arith, pending-Finished amount tasks h.1)
pending-Finished amount ((action ∷ task) ∷ tasks) h = cc

act-AreU64 : (action : Action) (m : ProxyMetrics) → AreU64 m → AreU64 (act action m)
unfolding act
act-AreU64 (add_by_type counts) m h = (
  h.0,
  h.1,
  h.2,
  h.3,
  h.4,
  h.5,
  subst Fits (sym (add_counts-merge_counts m.redactions_by_type counts))
      (merge_counts-Fits m.redactions_by_type counts h.6),
)
act-AreU64 add_request m h = ground arith
act-AreU64 add_upstream_error m h = ground arith
act-AreU64 add_rejected_payload m h = ground arith
act-AreU64 (add_request_bytes k) m h = ground arith
act-AreU64 (add_forwarded_bytes k) m h = ground arith
act-AreU64 (add_redactions k) m h = ground arith

default-AreU64 : AreU64 default_metrics
default-AreU64 = (omega arith, omega arith, omega arith, omega arith, omega arith, omega arith, tt)

run-AreU64 : (actions : List Action) (m : ProxyMetrics) → AreU64 m → AreU64 (run actions m)
unfolding run
run-AreU64 [] m h = h
run-AreU64 (action ∷ actions) m h = run-AreU64 actions (act action m) (act-AreU64 action m h)

module _ (r : Reading) where
  norm_same : (a b c : ℕ) → r.norm a ≡ r.norm b → r.norm (a + c) ≡ r.norm (b + c)
  norm_same a b c e = sym (r.norm-add a c) ∙ ap (λ k. r.norm (k + c)) e ∙ r.norm-add b c

  read-run :
      (actions : List Action) (m : ProxyMetrics)
      → AreU64 m
      → r.norm (r.read (run actions m)) ≡ r.norm (r.read m + load r.amount actions)
  unfolding run
  read-run [] m h = ap r.norm (omega arith)
  read-run (action ∷ actions) m h =
      read-run actions (act action m) (act-AreU64 action m h)
      ∙ norm_same _ (r.read m + r.amount action) (load r.amount actions) (r.read-act action m h)
      ∙ ap r.norm (omega arith)

  module _ (n : Network) (x : External) (engine : Engine x) where
    -- What the accesses of the requests add.
    abbrev total : List (Request n) → ℕ
    total [] = 0
    total (request ∷ requests) = load r.amount (request_actions n x engine request) + total requests

    read-serial :
        (requests : List (Request n))
        → AreU64 (serial n x engine requests)
          × (r.norm (r.read (serial n x engine requests)) ≡ r.norm (total requests))
    unfolding serial
    read-serial [] = (default-AreU64, ap r.norm r.read-default)
    read-serial (request ∷ requests) =
        let before = serial n x engine requests in
        let actions = request_actions n x engine request in
        let (fits, same) = read-serial requests in
        let step = proxy-run n x engine request before in
        (
          subst AreU64 (sym step) (run-AreU64 actions before fits),
          ap (λ m. r.norm (r.read m)) step
              ∙ read-run actions before fits
              ∙ norm_same _ (total requests) (load r.amount actions) same
              ∙ ap r.norm (omega arith),
        )

    -- What has been read and what the tasks have still to add is what the arrived requests add.
    read-Reach :
        {s : System n x engine}
        → Reach n x engine s
        → AreU64 s.metrics
          × (r.norm (r.read s.metrics + pending r.amount s.tasks) ≡ r.norm (total s.arrived))
    read-Reach start = (default-AreU64, ap r.norm (omega (arith, r.read-default)))
    read-Reach (later {s} reach (arrive request)) =
        let (fits, same) = read-Reach reach in
        let actions = load r.amount (request_actions n x engine request) in
        (
          fits,
          ap r.norm (omega arith)
              ∙ norm_same (r.read s.metrics + pending r.amount s.tasks) (total s.arrived) actions
                  same
              ∙ ap r.norm (omega arith),
        )
    read-Reach (later {s} reach (access {action} {tasks} takes)) =
        let (fits, same) = read-Reach reach in
        (
          act-AreU64 action s.metrics fits,
          norm_same _ (r.read s.metrics + r.amount action) (pending r.amount tasks)
                (r.read-act action s.metrics fits)
              ∙ ap r.norm (omega (arith, pending-Takes r.amount takes))
              ∙ same,
        )

    -- With no task left, the reading is that of the serial run.
    pub read-Finished :
        (s : System n x engine)
        → Reach n x engine s
        → Finished s.tasks
        → r.read s.metrics ≡ r.read (serial n x engine s.arrived)
    read-Finished s reach finished =
        let (small, same) = read-Reach reach in
        let (small', same') = read-serial s.arrived in
        sym (r.norm-read s.metrics small)
        ∙ ap r.norm (omega (arith, pending-Finished r.amount s.tasks finished))
        ∙ same
        ∙ sym same'
        ∙ r.norm-read (serial n x engine s.arrived) small'
