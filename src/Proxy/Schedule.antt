-- ===== src/Proxy/Schedule.antt =====
-- Requests that are handled at the same time: each is a task with the accesses that it has still to
-- make, and the runtime interleaves the accesses of the tasks in any order. An access is atomic, as
-- `fetch_add` and the mutex of `ProxyMetrics` make it.
pub mod Laws
pub mod Serial
use privacy_proxy.Base.{List, [], ◌∷◌, ◌≡◌, All}
use privacy_proxy.External.{External}
use privacy_proxy.Engine.Patterns.{Engine}
use privacy_proxy.Proxy.Metrics.{ProxyMetrics}
use privacy_proxy.Proxy.Handler.{Network, Request, proxy}
use privacy_proxy.Proxy.Actions.{Action, act, default_metrics, request_actions}

-- One of the tasks makes its next access.
pub data Takes : List (List Action) → Action → List (List Action) → Type 0 where
  here :
      {action : Action} {actions : List Action} {tasks : List (List Action)}
      → Takes ((action ∷ actions) ∷ tasks) action (actions ∷ tasks)
  there :
      {task : List Action} {action : Action} {tasks tasks' : List (List Action)}
      → Takes tasks action tasks'
      → Takes (task ∷ tasks) action (task ∷ tasks')

abbrev pub Finished : List (List Action) → Type 0
Finished tasks = All (λ task. task ≡ []) tasks

module _ (n : Network) (x : External) (engine : Engine x) where
  -- The state behind `Arc<ProxyState>`, the tasks, and the requests that have arrived.
  pub record System : Type 0 where
    pub metrics : ProxyMetrics
    pub tasks : List (List Action)
    pub arrived : List (Request n)

  pub data Step (s : System) : System → Type 0 where
    arrive :
        (request : Request n)
        → Step s (record s {
          tasks = request_actions n x engine request ∷ s.tasks;
          arrived = request ∷ s.arrived;
        })
    access :
        {action : Action} {tasks : List (List Action)}
        → Takes s.tasks action tasks
        → Step s (record s { metrics = act action s.metrics; tasks = tasks })

  -- What `serve` starts with.
  abbrev pub init : System
  init = record { metrics = default_metrics; tasks = []; arrived = [] }

  pub data Reach : System → Type 0 where
    start : Reach init
    later : {s t : System} → Reach s → Step s t → Reach t

  -- The handler on one request after the other, the last of the list first.
  unfoldable pub serial : List (Request n) → ProxyMetrics
  serial [] = default_metrics
  serial (request ∷ requests) = (proxy n x engine request (serial requests)).metrics
