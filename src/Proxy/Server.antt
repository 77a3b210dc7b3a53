-- ===== src/Proxy/Server.antt =====
-- `serve`, up to the server of the crate `axum`: what it is started with. The URL parser, the
-- listener and the server are parameters.
use privacy_proxy.Base.{ℕ, Bool, not, Option, none, some}
use privacy_proxy.Text.{Bytes}
use privacy_proxy.Error.{Error, Fallible, ok, err, ◌>>=◌, ◌>>◌, fail_if, map_err}
use privacy_proxy.Config.{Config}
use privacy_proxy.External.{External}
use privacy_proxy.Engine.Patterns.{Engine, new_engine}
use privacy_proxy.Proxy.Metrics.{ProxyMetrics}
use privacy_proxy.Proxy.Actions.{default_metrics}

-- `Error`, without what other crates' errors carry
pub data ServeError : Type 0 where
  invalid_target bind server : ServeError
  engine : Error → ServeError

pub record ServeOptions : Type 0 where
  pub listen : ℕ
  pub target : Bytes
  pub config : Config

module _ (x : External) (Url : Type 0) where
  pub record ProxyState : Type 0 where
    pub target : Url
    pub engine : Engine x
    pub config : Config
    pub metrics : ProxyMetrics

  -- What the server is made of: whether a listener can be bound to an address, and whether the
  -- server with a state ends without an error.
  pub record Host : Type 0 where
    pub parse_url : Bytes → Option Url
    pub can_bind : ℕ → Bool
    pub serves : ProxyState → Bool

  abbrev pub parsed : Option Url → Fallible ServeError Url
  parsed none = err invalid_target
  parsed (some url) = ok url

  abbrev pub start_state : Url → Engine x → Config → ProxyState
  start_state target made config = record {
    target = target;
    engine = made;
    config = config;
    metrics = default_metrics;
  }

  unfoldable pub serve : Host → ServeOptions → Fallible ServeError (Unit {0})
  serve host options = do
    target ← parsed (host.parse_url options.target)
    made ← map_err engine (new_engine x options.config)
    fail_if (not (host.can_bind options.listen)) bind
    fail_if (not (host.serves (start_state target made options.config))) server
    ok tt
