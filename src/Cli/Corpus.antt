-- ===== src/Cli/Corpus.antt =====
-- `generate_corpus` and `synthetic_record`. The JSON writer is a parameter.
pub mod Laws
use privacy_proxy.Base.{
  ℕ, zero, suc, ◌+◌, ◌%◌, ◌/◌, Option, none, some, List, [], ◌∷◌, ◌++◌, ◌==◌, if◌then◌else◌,
  get_elem?,
}
use privacy_proxy.Text.{Bytes, codes}
use privacy_proxy.Text.Number.{decimal, hexadecimal, padded}
use privacy_proxy.Error.{Fallible, ok, err}
use privacy_proxy.Json.{Value, Fields, string, object, end, insert}
use privacy_proxy.Cli.Commands.{Failure, no_lines, no_json}

abbrev services : List Bytes
services =
    codes "api-gateway" ∷ codes "checkout-worker" ∷ codes "auth-service" ∷ codes "billing-sync" ∷ []

abbrev levels : List Bytes
levels = codes "info" ∷ codes "warn" ∷ codes "error" ∷ []

abbrev routes : List Bytes
routes = codes "/login" ∷ codes "/checkout" ∷ codes "/password-reset" ∷ codes "/webhook" ∷ []

-- `LIST[i]`, for an index within the list
abbrev pub chosen : List Bytes → ℕ → Bytes
chosen list i = elim (get_elem? list i) [ none ↦ [] | some item ↦ item ]

-- `json!({ … })`, whose map is sorted
abbrev pub fields_of : List (Bytes × Value) → Fields
fields_of [] = end
fields_of ((key, value) ∷ members) = insert key value (fields_of members)

unfoldable pub synthetic_record : ℕ → Value
synthetic_record index =
    let service = chosen services (index % 4) in
    let level = chosen levels (index % 3) in
    let route = chosen routes (index % 4) in
    let octet = decimal (index % 254 + 1) in
    let minute = padded 2 (decimal ((index / 60) % 60)) in
    let second = padded 2 (decimal (index % 60)) in
    let wide = padded 8 (decimal index) in
    let hex = padded 16 (hexadecimal index) in
    object (
      fields_of (
        (
          codes "timestamp",
          string (codes "2026-06-19T10:" ++ (minute ++ (codes ":" ++ (second ++ codes "Z")))),
        )
        ∷ (codes "level", string level)
        ∷ (codes "service", string service)
        ∷ (codes "trace_id", string (codes "trace-" ++ hex))
        ∷ (codes "span_id", string (codes "span-" ++ hex))
        ∷ (codes "request_id", string (codes "req-" ++ wide))
        ∷ (
          codes "user",
          object (
              fields_of (
                (codes "id", string (codes "user-" ++ wide))
                ∷ (codes "email", string (codes "user" ++ (decimal index ++ codes "@example.test")))
                ∷ [])),
        )
        ∷ (
          codes "request",
          object (
              fields_of (
                (codes "method", string (if index % 2 == 0 then codes "POST" else codes "GET"))
                ∷ (codes "route", string route)
                ∷ (codes "ip", string (codes "203.0.113." ++ octet))
                ∷ (
                  codes "url",
                  string (
                      codes "https://app.example.test"
                      ++ (route
                          ++ (codes "?token=synthetic-token-" ++ (wide ++ codes "&safe=true")))),
                )
                ∷ (
                  codes "headers",
                  object (
                      fields_of (
                        (
                          codes "authorization",
                          string (codes "Bearer synthetic-bearer-token-" ++ wide),
                        )
                        ∷ (
                          codes "cookie",
                          string (
                              codes "session=synthetic-session-"
                              ++ (wide ++ codes "; theme=light")),
                        )
                        ∷ [])),
                )
                ∷ [])),
        )
        ∷ (
          codes "payment",
          object (
              fields_of (
                (codes "card", string (codes "4111 1111 1111 1111"))
                ∷ (codes "iban", string (codes "GB82 WEST 1234 5698 7654 32"))
                ∷ [])),
        )
        ∷ (
          codes "message",
          string (
              codes "synthetic event "
              ++ (decimal index
                  ++ (codes " for " ++ (service ++ (codes " from 203.0.113." ++ octet))))),
        )
        ∷ []))

-- What is written, and how it ends.
abbrev pub Generated : Type 0
Generated = Bytes × Fallible Failure (Unit {0})

module _ (json_to_string : Value → Option Bytes) where
  -- The loop from an index on, for a number of lines, behind what was written.
  unfoldable pub corpus_lines : ℕ → ℕ → Bytes → Generated
  corpus_lines index zero written = (written, ok tt)
  corpus_lines index (suc count) written = elim (json_to_string (synthetic_record index)) [
    | none ↦ (written, err no_json)
    | some text ↦ corpus_lines (suc index) count (written ++ (text ++ b'\n' ∷ []))
  ]

  unfoldable pub generate_corpus : ℕ → Generated
  unfolding corpus_lines
  generate_corpus lines = if lines == 0 then ([], err no_lines) else corpus_lines 0 lines []
