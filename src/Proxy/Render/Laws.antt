-- ===== src/Proxy/Render/Laws.antt =====
-- The metrics text is read back.
use privacy_proxy.Base.{
  ℕ, ◌||◌, ◌&&◌, not, Bool, true, false, Option, none, some, List, [], ◌∷◌, ◌++◌, ◌==◌, all, map,
  append-nil, append_assoc, ◌≡◌, refl, sym, ap, ◌∙◌, arith,
}
use privacy_proxy.Text.{Bytes, codes, split, starts_with}
use privacy_proxy.Text.Laws.{one_line, all-append, split_first-line}
use privacy_proxy.Text.Number.{decimal, read_decimal, read_decimal-decimal, all-decimal}
use privacy_proxy.BTreeMap.{BTreeMap}
use privacy_proxy.Proxy.Metrics.{ProxyMetrics, prometheus_escape_label_value}
use privacy_proxy.Proxy.Metrics.Laws.{unescape-prometheus_escape_label_value}
use privacy_proxy.Proxy.Render.{
  push_counter, by_type_line, push_by_type, render_prometheus_metrics, prometheus_metrics,
}
use privacy_proxy.Proxy.Render.Samples.{
  Sample, until, ends_name, labelled, after_name, sample, and_others, all_samples, samples,
}

abbrev at_most_one : Option Sample → List Sample
at_most_one found = and_others found []

-- The samples of a text do not depend on what stands behind it.
abbrev Reads : Bytes → List Sample → Type 0
Reads text found = (rest : Bytes) → samples (text ++ rest) ≡ found ++ samples rest

and_others-append :
    (found : Option Sample) (others : List Sample)
    → and_others found others ≡ at_most_one found ++ others
and_others-append none others = refl
and_others-append (some one) others = refl

Reads-line :
    (line : Bytes) → one_line line ≡ true → Reads (line ++ b'\n' ∷ []) (at_most_one (sample line))
unfolding samples split all_samples
Reads-line line h rest =
    ap samples (append_assoc line (b'\n' ∷ []) rest)
    ∙ ap (λ t. all_samples (t.0 ∷ t.1)) (split_first-line line rest h)
    ∙ and_others-append (sample line) (samples rest)

-- A line without a sample at the end of the output.
Reads-comment :
    (output line : Bytes) (before : List Sample)
    → one_line line ≡ true
    → sample line ≡ none
    → Reads output before
    → Reads (output ++ (line ++ b'\n' ∷ [])) before
Reads-comment output line before h e r rest =
    ap samples (append_assoc output (line ++ b'\n' ∷ []) rest)
    ∙ r ((line ++ b'\n' ∷ []) ++ rest)
    ∙ ap (λ t. before ++ t)
        (Reads-line line h rest ∙ ap (λ found. at_most_one found ++ samples rest) e)

-- A line with one.
Reads-sample :
    (output line : Bytes) (before : List Sample) (one : Sample)
    → one_line line ≡ true
    → sample line ≡ some one
    → Reads output before
    → Reads (output ++ (line ++ b'\n' ∷ [])) (before ++ one ∷ [])
Reads-sample output line before one h e r rest =
    ap samples (append_assoc output (line ++ b'\n' ∷ []) rest)
    ∙ r ((line ++ b'\n' ∷ []) ++ rest)
    ∙ ap (λ t. before ++ t)
        (Reads-line line h rest ∙ ap (λ found. at_most_one found ++ samples rest) e)
    ∙ sym (append_assoc before (one ∷ []) (samples rest))

decimal-one_line : (n : ℕ) → one_line (decimal n) ≡ true
decimal-one_line n = all-decimal (λ ch. not (ch == b'\n')) n (λ d lt. ground arith)

decimal-read : (n : ℕ) → (read_decimal 0 (decimal n)).0 ≡ n
unfolding read_decimal
decimal-read n =
    ap (λ t. (read_decimal 0 t).0) (sym (append-nil (decimal n)))
    ∙ ap (λ t. t.0) (read_decimal-decimal n [])

-- A name of a metric.
abbrev is_name : Bytes → Bool
is_name [] = false
is_name (ch ∷ name) =
    not (ch == b'#') && all (λ c. not (c == b' ' || c == b'{' || c == b'\n')) (ch ∷ name)

until-name :
    (name rest : Bytes) (ch : ℕ)
    → all (λ c. not (c == b' ' || c == b'{' || c == b'\n')) name ≡ true
    → ends_name ch ≡ true
    → until ends_name (name ++ ch ∷ rest) ≡ (name, ch ∷ rest)
unfolding until
until-name [] rest ch h e = rw e refl
until-name (c ∷ name) rest ch h e = ground (arith, until-name name rest ch)

sample-counter :
    (name : Bytes) (value : ℕ)
    → is_name name ≡ true
    → sample (name ++ (b' ' ∷ decimal value)) ≡ some (name, none, value)
unfolding sample after_name
sample-counter [] value h = cc
sample-counter (ch ∷ name) value h =
    let comment : (ch == b'#') ≡ false = ground arith in
    let plain : all (λ c. not (c == b' ' || c == b'{' || c == b'\n')) (ch ∷ name) ≡ true =
      ground arith in
    rw (comment, until-name (ch ∷ name) (decimal value) b' ' plain refl)
      (ap (λ k. some (ch ∷ name, none, k)) (decimal-read value))

Reads-counter :
    (output name help : Bytes) (value : ℕ) (before : List Sample)
    → is_name name ≡ true
    → one_line name ≡ true
    → one_line help ≡ true
    → Reads output before
    → Reads (push_counter output name help value) (before ++ (name, none, value) ∷ [])
unfolding push_counter sample
Reads-counter output name help value before h n k r =
    let help_line = codes "# HELP " ++ (name ++ (b' ' ∷ help)) in
    let type_line = codes "# TYPE " ++ (name ++ codes " counter") in
    let value_line = name ++ (b' ' ∷ decimal value) in
    let behind_help = output ++ (help_line ++ b'\n' ∷ []) in
    Reads-sample (behind_help ++ (type_line ++ b'\n' ∷ [])) value_line before (name, none, value)
      (all-append _ name (b' ' ∷ decimal value) n (decimal-one_line value))
      (sample-counter name value h)
      (Reads-comment behind_help type_line before (all-append _ name (codes " counter") n refl) refl
        (Reads-comment output help_line before (all-append _ name (b' ' ∷ help) n k) refl r))

escaped-one_line : (value : Bytes) → one_line (prometheus_escape_label_value value) ≡ true
unfolding prometheus_escape_label_value
escaped-one_line [] = refl
escaped-one_line (ch ∷ value) = ground (arith, escaped-one_line value)

-- The samples of the counters by type.
abbrev pub by_type_sample : Bytes × ℕ → Sample
by_type_sample (detector, count) =
    (codes "privacy_proxy_redactions_by_type_total", some detector, count)

sample-by_type : (entry : Bytes × ℕ) → sample (by_type_line entry) ≡ some (by_type_sample entry)
unfolding sample after_name until starts_with
sample-by_type (detector, count) =
    ap (labelled (codes "privacy_proxy_redactions_by_type_total"))
      (unescape-prometheus_escape_label_value detector (b'}' ∷ b' ' ∷ decimal count))
    ∙ ap (λ k. some (codes "privacy_proxy_redactions_by_type_total", some detector, k))
        (decimal-read count)

by_type-one_line : (entry : Bytes × ℕ) → one_line (by_type_line entry) ≡ true
by_type-one_line (detector, count) =
    all-append _ (prometheus_escape_label_value detector) (b'"' ∷ b'}' ∷ b' ' ∷ decimal count)
      (escaped-one_line detector) (decimal-one_line count)

Reads-by_type :
    (entries : BTreeMap ℕ) (output : Bytes) (before : List Sample)
    → Reads output before
    → Reads (push_by_type output entries) (before ++ map by_type_sample entries)
unfolding push_by_type
Reads-by_type [] output before r rest =
    r rest ∙ ap (λ t. t ++ samples rest) (sym (append-nil before))
Reads-by_type (entry ∷ entries) output before r rest =
    Reads-by_type entries (output ++ (by_type_line entry ++ b'\n' ∷ []))
      (before ++ by_type_sample entry ∷ [])
      (Reads-sample output (by_type_line entry) before (by_type_sample entry)
        (by_type-one_line entry) (sample-by_type entry) r)
      rest
    ∙ ap (λ t. t ++ samples rest)
        (append_assoc before (by_type_sample entry ∷ []) (map by_type_sample entries))

-- The samples that a snapshot stands for.
abbrev pub samples_of : ProxyMetrics → List Sample
samples_of snapshot =
    (codes "privacy_proxy_requests_total", none, snapshot.requests)
    ∷ (codes "privacy_proxy_upstream_errors_total", none, snapshot.upstream_errors)
    ∷ (codes "privacy_proxy_rejected_payloads_total", none, snapshot.rejected_payloads)
    ∷ (codes "privacy_proxy_request_bytes_total", none, snapshot.request_bytes)
    ∷ (codes "privacy_proxy_forwarded_bytes_total", none, snapshot.forwarded_bytes)
    ∷ (codes "privacy_proxy_redactions_total", none, snapshot.redactions_total)
    ∷ map by_type_sample snapshot.redactions_by_type

-- A text and the samples that are read from it.
abbrev Known : Type 0
Known = (text : Bytes) × (found : List Sample) × Reads text found

abbrev and_counter :
    (name help : Bytes) (value : ℕ)
    → is_name name ≡ true
    → one_line name ≡ true
    → one_line help ≡ true
    → Known
    → Known
and_counter name help value h n k (output, before, r) = (
  push_counter output name help value,
  before ++ (name, none, value) ∷ [],
  Reads-counter output name help value before h n k r,
)

abbrev and_comment : (line : Bytes) → one_line line ≡ true → sample line ≡ none → Known → Known
and_comment line h e (output, before, r) =
    (output ++ (line ++ b'\n' ∷ []), before, Reads-comment output line before h e r)

abbrev counters_of : ProxyMetrics → Known
unfolding sample
counters_of snapshot =
    and_comment (codes "# TYPE privacy_proxy_redactions_by_type_total counter") refl refl (
      and_comment
        (codes "# HELP privacy_proxy_redactions_by_type_total Total redactions by detector type.")
        refl refl
        (and_counter (codes "privacy_proxy_redactions_total")
          (codes "Total redactions applied by the proxy.") snapshot.redactions_total refl refl refl
          (and_counter (codes "privacy_proxy_forwarded_bytes_total")
            (codes "Total request body bytes forwarded after redaction.") snapshot.forwarded_bytes
            refl refl refl
            (and_counter (codes "privacy_proxy_request_bytes_total")
              (codes "Total request body bytes received before redaction.") snapshot.request_bytes
              refl refl refl
              (and_counter (codes "privacy_proxy_rejected_payloads_total")
                (codes "Total payloads rejected before forwarding.") snapshot.rejected_payloads refl
                refl refl
                (and_counter (codes "privacy_proxy_upstream_errors_total")
                  (codes "Total upstream or proxy forwarding errors.") snapshot.upstream_errors refl
                  refl refl
                  (and_counter (codes "privacy_proxy_requests_total")
                    (codes "Total HTTP requests handled by the proxy.") snapshot.requests refl refl
                    refl ([], [], λ rest. refl))))))))

-- What a scraper reads in the text of `/metrics/prometheus` is the state of the counters: six samples
-- with the values of the counters, and one for each entry of the counters by type, with its name as
-- the label, whatever bytes the name has, and its count.
pub samples-prometheus_metrics :
    (metrics : ProxyMetrics) → samples (prometheus_metrics metrics).body ≡ samples_of metrics
unfolding prometheus_metrics render_prometheus_metrics counters_of sample samples all_samples split
samples-prometheus_metrics metrics =
    let (text, found, reads) = counters_of metrics in
    ap samples (sym (append-nil (push_by_type text metrics.redactions_by_type)))
    ∙ Reads-by_type metrics.redactions_by_type text found reads []
    ∙ append-nil (found ++ map by_type_sample metrics.redactions_by_type)
