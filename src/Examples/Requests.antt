-- ===== src/Examples/Requests.antt =====
-- Requests through the proxy.
use privacy_proxy.Base.{
  ℕ, ◌≤◌, Option, none, some, List, [], ◌∷◌, length, ltb, if◌then◌else◌, ◌≡◌, refl, arith, All,
}
use privacy_proxy.Text.{
  Bytes, codes, trim, is_empty, equal, starts_with, contains, to_ascii_lowercase,
  is_ascii_alphanumeric,
}
use privacy_proxy.Error.{ok}
use privacy_proxy.Stats.{default_report, saturating_add, count_of}
use privacy_proxy.Stats.Counting.{record_all, record_all_counts}
use privacy_proxy.Config.{email}
use privacy_proxy.Proxy.Metrics.{ProxyMetrics, record_report}
use privacy_proxy.Proxy.Metrics.Laws.{IsMetrics, counter, record_report-IsMetrics}
use privacy_proxy.Proxy.Headers.{Header, apply_headers, should_skip_header, sensitive_header_kind}
use privacy_proxy.Proxy.Headers.Laws.{MaySend, names, sent_names, apply_headers-MaySend}
use privacy_proxy.Proxy.Body.{decode_request_body, redact_body}
use privacy_proxy.Proxy.Body.Laws.{decode_request_body_le}
use privacy_proxy.Proxy.Handler.{Network, Request, Outgoing, proxy, header_value}
use privacy_proxy.Proxy.Render.{prometheus_metrics}
use privacy_proxy.Proxy.Render.Samples.{samples}
use privacy_proxy.Proxy.Render.Laws.{samples_of, samples-prometheus_metrics}
use privacy_proxy.Text.Laws.{equal_refl}
use privacy_proxy.Proxy.Headers.{should_skip_response_header}
use privacy_proxy.Proxy.Target.{
  Urls, trim_start_matches, trim_end_matches, target_url, safe_target_label,
}
use privacy_proxy.Proxy.Target.Laws.{joined, KeepsOrigin, target_url_lem}
use privacy_proxy.Proxy.Response.{HeaderMaps, Upstream, into_axum_response}
use privacy_proxy.Proxy.Response.Laws.{InsertReplaces, last_value, into_axum_response_lem}
use privacy_proxy.Proxy.Handler.Replies.{Replies, proxy-Replies}
use privacy_proxy.FieldRules.{normalize_field_name}
use privacy_proxy.Proxy.Handler.Counting.{Accounted, proxy-Accounted}
use privacy_proxy.Proxy.Handler.Laws.{MayLeave, Limits, proxy-MayLeave}
use privacy_proxy.Examples.Setting.{sample, engine}

abbrev pub start_metrics : ProxyMetrics
start_metrics = record {
  requests = 0;
  upstream_errors = 0;
  rejected_payloads = 0;
  request_bytes = 0;
  forwarded_bytes = 0;
  redactions_total = 0;
  redactions_by_type = [];
}

record_report-IsMetrics_example :
    IsMetrics (record_report start_metrics (record_all default_report (email ∷ [])))
    × (counter
          (codes "email")
          (record_report start_metrics (record_all default_report (email ∷ [])))
        ≡ saturating_add
            (counter (codes "email") start_metrics)
            (count_of (codes "email") (record_all default_report (email ∷ []))))
record_report-IsMetrics_example =
    record_report-IsMetrics start_metrics (record_all default_report (email ∷ [])) (codes "email")
      (record { sorted = tt; fits = tt }) (record_all_counts (email ∷ [])).0

abbrev some_headers : List Header
some_headers =
    (codes "host", codes "h") ∷ (codes "cookie", codes "s=1") ∷ (codes "accept", codes "b") ∷ []

apply_headers-MaySend_example :
    All MaySend
      (apply_headers some (λ text. ok (text, default_report)) some_headers start_metrics).0
    × (names (apply_headers some (λ text. ok (text, default_report)) some_headers start_metrics).0
        ≡ sent_names some_headers)
apply_headers-MaySend_example =
    apply_headers-MaySend some (λ text. ok (text, default_report)) some_headers start_metrics

abbrev inflate : Bytes → ℕ → Option Bytes
inflate body limit = some body

decoded : decode_request_body some inflate (codes "ab") (some (codes "gzip")) 4 ≡ ok (codes "ab")
unfolding decode_request_body trim equal is_empty to_ascii_lowercase
decoded = refl

decode_request_body_le_example : length (codes "ab") ≤ 4
decode_request_body_le_example =
    decode_request_body_le some inflate (codes "ab") (some (codes "gzip")) 4 (omega arith) decoded

-- A URL is its host, its path and its query.
abbrev sample_urls : Urls
sample_urls = record {
  Url = Bytes × Bytes × Option Bytes;
  Method = Bytes;
  path = λ url. url.1;
  query = λ url. url.2;
  set_path = λ path url. (url.0, path, url.2);
  set_query = λ query url. (url.0, url.1, query);
  host_str = λ url. some url.0;
  scheme = λ url. codes "https";
  port = λ url. none;
  method_from_bytes = some;
  get_method = codes "GET";
}

abbrev target : sample_urls.Url
target = (codes "h", codes "/v1/", none)

sample_urls-KeepsOrigin : KeepsOrigin sample_urls
sample_urls-KeepsOrigin = record {
  path_scheme = λ path url. refl;
  path_host = λ path url. refl;
  path_port = λ path url. refl;
  query_scheme = λ query url. refl;
  query_host = λ query url. refl;
  query_port = λ query url. refl;
  query_path = λ query url. refl;
}

trimmed :
    (trim_end_matches b'/' (codes "/v1") ≡ codes "/v1")
    × (trim_start_matches b'/' (codes "logs") ≡ codes "logs")
unfolding trim_end_matches
trimmed = (refl, refl)

target_url_example :
    (safe_target_label sample_urls (target_url sample_urls target (codes "//logs") none)
      ≡ safe_target_label sample_urls target)
    × (sample_urls.path (target_url sample_urls target (codes "//logs") none)
        ≡ sample_urls.path (sample_urls.set_path (joined (codes "/v1") (codes "logs")) target))
target_url_example =
    target_url_lem sample_urls target (codes "/v1") (codes "logs") 1 2 none sample_urls-KeepsOrigin
      refl trimmed.0 trimmed.1

-- A header map as the function from names to values.
abbrev sample_maps : HeaderMaps
sample_maps = record {
  HeaderMap = Bytes → List Bytes;
  empty = λ name. [];
  insert = λ key value m name. if equal key name then value ∷ [] else m name;
  get_all = λ name m. m name;
}

sample_maps-InsertReplaces : InsertReplaces sample_maps
sample_maps-InsertReplaces = record {
  empty_none = λ name. refl;
  insert_same = λ name value m. rw (equal_refl name) refl;
  insert_other = λ name other value m e. rw e refl;
}

abbrev answer : Upstream
answer = record {
  status = 200;
  headers =
      (codes "set-cookie", codes "a=1")
      ∷ (codes "content-length", codes "2")
      ∷ (codes "set-cookie", codes "b=2")
      ∷ [];
  bytes = some (codes "ok");
}

into_axum_response_example :
    ((into_axum_response sample_maps answer).status ≡ 200)
    × (sample_maps.get_all (codes "set-cookie") (into_axum_response sample_maps answer).headers ≡ (
        if should_skip_response_header (codes "set-cookie")
        then []
        else last_value (codes "set-cookie") answer.headers []))
into_axum_response_example =
    into_axum_response_lem sample_maps answer (codes "set-cookie") sample_maps-InsertReplaces

abbrev pub network : Network
network = record {
  urls = sample_urls;
  target = target;
  header_maps = sample_maps;
  Body = Bytes;
  to_str = some;
  gunzip = inflate;
  json_from_str = λ text. none;
  read_body = λ body limit. if ltb limit (length body) then none else some body;
  send = λ method url headers body. some answer;
}

network-Limits : Limits network
network-Limits body limit received e = ground arith

abbrev pub request : Request network
request = record {
  method = codes "POST";
  path = codes "/logs";
  query = none;
  headers = (codes "host", codes "h") ∷ (codes "cookie", codes "s=1") ∷ [];
  body = [];
}

abbrev sent : Outgoing network
sent = record {
  method = codes "POST";
  url = (codes "h", codes "/v1/logs", none);
  headers = (codes "cookie", codes "[REDACTED:header]") ∷ [];
  body = [];
}

run : (proxy network sample engine request start_metrics).sent ≡ some sent
unfolding proxy target_url decode_request_body header_value equal redact_body is_empty apply_headers
    should_skip_header sensitive_header_kind contains normalize_field_name is_ascii_alphanumeric
    to_ascii_lowercase starts_with
run = refl

proxy-MayLeave_example : MayLeave network sample engine request sent
proxy-MayLeave_example =
    proxy-MayLeave network sample engine request start_metrics sent network-Limits run

proxy-Accounted_example :
    Accounted network start_metrics (proxy network sample engine request start_metrics)
proxy-Accounted_example = proxy-Accounted network sample engine request start_metrics

abbrev counted : ProxyMetrics
counted = record start_metrics {
  requests = 12;
  redactions_total = 3;
  redactions_by_type = (codes "a\"b\nc", 3) ∷ [];
}

samples-prometheus_metrics_example : samples (prometheus_metrics counted).body ≡ samples_of counted
samples-prometheus_metrics_example = samples-prometheus_metrics counted

proxy-Replies_example : Replies network (proxy network sample engine request start_metrics)
proxy-Replies_example =
    proxy-Replies network sample engine request start_metrics sample_maps-InsertReplaces
