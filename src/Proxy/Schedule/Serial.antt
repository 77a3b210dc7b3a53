-- ===== src/Proxy/Schedule/Serial.antt =====
-- Handling requests at the same time counts what handling them one after the other counts.
use privacy_proxy.Base.{
  ℕ, ◌+◌, ◌^◌, ◌%◌, ◌<◌, min, [], ◌∷◌, ◌≡◌, refl, ap, ◌∙◌, arith, if◌then◌else◌,
}
use privacy_proxy.Text.{Bytes, equal}
use privacy_proxy.Text.Laws.{equal_iff}
use privacy_proxy.External.{External}
use privacy_proxy.BTreeMap.{BTreeMap, alter, get}
use privacy_proxy.Stats.{u64_max, merge_counts, saturating_add}
use privacy_proxy.Stats.Laws.{Fits, add, at, at-alter, at-le, Fits-alter}
use privacy_proxy.Engine.Patterns.{Engine}
use privacy_proxy.Proxy.Metrics.{ProxyMetrics, fetch_add}
use privacy_proxy.Proxy.Metrics.Laws.{counter, add_counts-merge_counts}
use privacy_proxy.Proxy.Handler.{Network}
use privacy_proxy.Proxy.Actions.{
  Action, add_request, add_upstream_error, add_rejected_payload, add_request_bytes,
  add_forwarded_bytes, add_redactions, add_by_type, act, default_metrics,
}
use privacy_proxy.Proxy.Schedule.{Finished, System, Reach, serial}
use privacy_proxy.Proxy.Schedule.Laws.{Reading, AreU64, read-Finished}

-- A counter that wraps.
module _ where
  wrap-add : (a b : ℕ) → (a % 2 ^ 64 + b) % 2 ^ 64 ≡ (a + b) % 2 ^ 64
  wrap-add a b = omega arith

  wrap-fetch_add : (a b : ℕ) → fetch_add a b % 2 ^ 64 ≡ (a + b) % 2 ^ 64
  wrap-fetch_add a b = omega arith

  abbrev wrapping :
      (read : ProxyMetrics → ℕ) (amount : Action → ℕ)
      → ((action : Action) (m : ProxyMetrics)
          → read (act action m) % 2 ^ 64 ≡ (read m + amount action) % 2 ^ 64)
      → ((m : ProxyMetrics) → AreU64 m → read m < 2 ^ 64)
      → read default_metrics ≡ 0
      → Reading
  wrapping read amount step small zero = record {
    read = read;
    amount = amount;
    norm = λ k. k % 2 ^ 64;
    norm-add = wrap-add;
    read-act = λ action m h. step action m;
    norm-read = λ m h. omega (arith, small m h);
    read-default = zero;
  }

abbrev requests_amount : Action → ℕ
requests_amount add_request = 1
requests_amount _ = 0

requests_step :
    (action : Action) (m : ProxyMetrics)
    → (act action m).requests % 2 ^ 64 ≡ (m.requests + requests_amount action) % 2 ^ 64
unfolding act
requests_step add_request m = wrap-fetch_add m.requests 1
requests_step _ m = omega arith

abbrev upstream_errors_amount : Action → ℕ
upstream_errors_amount add_upstream_error = 1
upstream_errors_amount _ = 0

upstream_errors_step :
    (action : Action) (m : ProxyMetrics)
    → (act action m).upstream_errors % 2 ^ 64
      ≡ (m.upstream_errors + upstream_errors_amount action) % 2 ^ 64
unfolding act
upstream_errors_step add_upstream_error m = wrap-fetch_add m.upstream_errors 1
upstream_errors_step _ m = omega arith

abbrev rejected_payloads_amount : Action → ℕ
rejected_payloads_amount add_rejected_payload = 1
rejected_payloads_amount _ = 0

rejected_payloads_step :
    (action : Action) (m : ProxyMetrics)
    → (act action m).rejected_payloads % 2 ^ 64
      ≡ (m.rejected_payloads + rejected_payloads_amount action) % 2 ^ 64
unfolding act
rejected_payloads_step add_rejected_payload m = wrap-fetch_add m.rejected_payloads 1
rejected_payloads_step _ m = omega arith

abbrev request_bytes_amount : Action → ℕ
request_bytes_amount (add_request_bytes k) = k
request_bytes_amount _ = 0

request_bytes_step :
    (action : Action) (m : ProxyMetrics)
    → (act action m).request_bytes % 2 ^ 64
      ≡ (m.request_bytes + request_bytes_amount action) % 2 ^ 64
unfolding act
request_bytes_step (add_request_bytes k) m = wrap-fetch_add m.request_bytes k
request_bytes_step _ m = omega arith

abbrev forwarded_bytes_amount : Action → ℕ
forwarded_bytes_amount (add_forwarded_bytes k) = k
forwarded_bytes_amount _ = 0

forwarded_bytes_step :
    (action : Action) (m : ProxyMetrics)
    → (act action m).forwarded_bytes % 2 ^ 64
      ≡ (m.forwarded_bytes + forwarded_bytes_amount action) % 2 ^ 64
unfolding act
forwarded_bytes_step (add_forwarded_bytes k) m = wrap-fetch_add m.forwarded_bytes k
forwarded_bytes_step _ m = omega arith

abbrev redactions_total_amount : Action → ℕ
redactions_total_amount (add_redactions k) = k
redactions_total_amount _ = 0

redactions_total_step :
    (action : Action) (m : ProxyMetrics)
    → (act action m).redactions_total % 2 ^ 64
      ≡ (m.redactions_total + redactions_total_amount action) % 2 ^ 64
unfolding act
redactions_total_step (add_redactions k) m = wrap-fetch_add m.redactions_total k
redactions_total_step _ m = omega arith

-- The counter of a name, which saturates.
abbrev count_in : Bytes → BTreeMap ℕ → ℕ
count_in name [] = 0
count_in name ((kind, count) ∷ counts) =
    (if equal kind name then count else 0) + count_in name counts

at-merged :
    (name : Bytes) (m other : BTreeMap ℕ)
    → Fits m
    → at name (merge_counts m other) ≡ saturating_add (at name m) (count_in name other)
unfolding merge_counts
at-merged name m [] h = omega (arith, at-le name m h)
at-merged name m ((kind, count) ∷ other) h = ground (
  arith,
  at-merged name (alter kind 0 (add count) m) other (Fits-alter kind count m h),
  at-alter kind name count m,
  at-le name m h,
  equal_iff kind name,
)

abbrev type_amount : Bytes → Action → ℕ
type_amount name (add_by_type counts) = count_in name counts
type_amount name _ = 0

type_step :
    (name : Bytes) (action : Action) (m : ProxyMetrics)
    → AreU64 m
    → min (counter name (act action m)) u64_max
      ≡ min (counter name m + type_amount name action) u64_max
unfolding act
type_step name (add_by_type counts) m h =
    ap (λ t. min (at name t) u64_max) (add_counts-merge_counts m.redactions_by_type counts)
    ∙ omega (arith, at-merged name m.redactions_by_type counts h.6)
type_step name _ m h = omega arith

abbrev by_name : Bytes → Reading
unfolding get
by_name name = record {
  read = counter name;
  amount = type_amount name;
  norm = λ k. min k u64_max;
  norm-add = λ a b. omega arith;
  read-act = type_step name;
  norm-read = λ m h. omega (arith, at-le name m.redactions_by_type h.6);
  read-default = refl;
}

-- The same in every counter.
pub record SameCounts (m m' : ProxyMetrics) : Type 0 where
  pub requests : m.requests ≡ m'.requests
  pub upstream_errors : m.upstream_errors ≡ m'.upstream_errors
  pub rejected_payloads : m.rejected_payloads ≡ m'.rejected_payloads
  pub request_bytes : m.request_bytes ≡ m'.request_bytes
  pub forwarded_bytes : m.forwarded_bytes ≡ m'.forwarded_bytes
  pub redactions_total : m.redactions_total ≡ m'.redactions_total
  pub by_type : (name : Bytes) → counter name m ≡ counter name m'

-- However the accesses of the tasks are interleaved with each other and with the arrival of
-- requests: when every task has finished, each counter, and the counter of each type, has the value
-- that it has after the handler on the arrived requests one after the other.
pub Reach-serial :
    (n : Network) (x : External) (engine : Engine x) (s : System n x engine)
    → Reach n x engine s
    → Finished s.tasks
    → SameCounts s.metrics (serial n x engine s.arrived)
unfolding get by_name
Reach-serial n x engine s reach finished = record {
  requests =
      read-Finished (wrapping (λ m. m.requests) requests_amount requests_step (λ m h. h.0) refl) n x
        engine s reach finished;
  upstream_errors =
      read-Finished
        (wrapping (λ m. m.upstream_errors) upstream_errors_amount upstream_errors_step (λ m h. h.1)
          refl)
        n x engine s reach finished;
  rejected_payloads =
      read-Finished
        (wrapping (λ m. m.rejected_payloads) rejected_payloads_amount rejected_payloads_step
          (λ m h. h.2) refl)
        n x engine s reach finished;
  request_bytes =
      read-Finished
        (wrapping (λ m. m.request_bytes) request_bytes_amount request_bytes_step (λ m h. h.3) refl)
        n x engine s reach finished;
  forwarded_bytes =
      read-Finished
        (wrapping (λ m. m.forwarded_bytes) forwarded_bytes_amount forwarded_bytes_step (λ m h. h.4)
          refl)
        n x engine s reach finished;
  redactions_total =
      read-Finished
        (wrapping (λ m. m.redactions_total) redactions_total_amount redactions_total_step
          (λ m h. h.5) refl)
        n x engine s reach finished;
  by_type = λ name. read-Finished (by_name name) n x engine s reach finished;
}
