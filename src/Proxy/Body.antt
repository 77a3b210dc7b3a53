-- ===== src/Proxy/Body.antt =====
-- Decoding and redaction of a request's body. `gunzip` is `GzDecoder` under `take`: at most so many
-- bytes of the decompressed body, or `none` on a body that is not gzip.
pub mod Laws
use privacy_proxy.Base.{
  ℕ, ◌+◌, Bool, true, false, ◌||◌, Option, none, some, List, [], ◌∷◌, ◌++◌, ltb, ◌==◌,
  if◌then◌else◌, length, map,
}
use privacy_proxy.Text.{
  Bytes, codes, equal, is_empty, trim, to_ascii_lowercase, starts_with, contains,
}
use privacy_proxy.Text.Utf8.{is_utf8}
use privacy_proxy.Error.{Error, Result, Fallible, ok, err, ◌>>=◌, map_err}
use privacy_proxy.Stats.{ScanReport, default_report, merge, saturating_add}
use privacy_proxy.Json.{Value}
use privacy_proxy.External.{External}
use privacy_proxy.Engine.Patterns.{Engine}
use privacy_proxy.Engine.Api.{redact_value, redact_str}
use privacy_proxy.Cli.Reader.{split_line_ending}

pub data RequestContentEncoding : Type 0 where
  identity gzip : RequestContentEncoding

pub data BodyDecodeError : Type 0 where
  unsupported_content_encoding decompressed_too_large gzip_failed : BodyDecodeError

pub data BodyRedactionError : Type 0 where
  invalid_utf8 : BodyRedactionError
  core_failed : Error → BodyRedactionError
  json_serialize : BodyRedactionError

-- `str::to_ascii_lowercase`
abbrev pub lowercase : Bytes → Bytes
lowercase [] = []
lowercase (ch ∷ text) = to_ascii_lowercase ch ∷ lowercase text

abbrev pub encoding_of : Bytes → Fallible BodyDecodeError RequestContentEncoding
encoding_of normalized =
    if is_empty normalized || equal normalized (codes "identity")
    then ok identity
    else if equal normalized (codes "gzip")
    then ok gzip
    else err unsupported_content_encoding

module _ (to_str : Bytes → Option Bytes) where
  unfoldable pub request_content_encoding :
      Option Bytes → Fallible BodyDecodeError RequestContentEncoding
  request_content_encoding none = ok identity
  request_content_encoding (some content_encoding) = elim (to_str content_encoding) [
    | none ↦ err unsupported_content_encoding
    | some raw ↦ encoding_of (lowercase (trim raw))
  ]

  module _ (gunzip : Bytes → ℕ → Option Bytes) where
    unfoldable pub decode_gzip : Bytes → ℕ → Fallible BodyDecodeError Bytes
    decode_gzip body max_body_bytes = elim (gunzip body (saturating_add max_body_bytes 1)) [
      | none ↦ err gzip_failed
      | some output ↦
          if ltb max_body_bytes (length output) then err decompressed_too_large else ok output
    ]

    abbrev pub decode_as : RequestContentEncoding → Bytes → ℕ → Fallible BodyDecodeError Bytes
    decode_as identity body max_body_bytes = ok body
    decode_as gzip body max_body_bytes = decode_gzip body max_body_bytes

    unfoldable pub decode_request_body : Bytes → Option Bytes → ℕ → Fallible BodyDecodeError Bytes
    unfolding request_content_encoding decode_gzip
    decode_request_body body content_encoding max_body_bytes = do
      encoding ← request_content_encoding content_encoding
      decode_as encoding body max_body_bytes

unfoldable pub is_json_media_type : Bytes → Bool
is_json_media_type media_type =
    starts_with media_type (codes "application/json") || contains media_type (codes "+json")

unfoldable pub is_jsonl_media_type : Bytes → Bool
is_jsonl_media_type media_type =
    contains media_type (codes "jsonl")
    || (contains media_type (codes "ndjson")
        || starts_with media_type (codes "application/x-ndjson"))

-- `split_inclusive('\n')`
unfoldable pub split_inclusive : Bytes → List Bytes
split_inclusive [] = []
split_inclusive (ch ∷ text) =
    let rest = split_inclusive text in
    if ch == b'\n'
    then (ch ∷ []) ∷ rest
    else elim rest [ [] ↦ (ch ∷ []) ∷ [] | line ∷ lines ↦ (ch ∷ line) ∷ lines ]

pub record RedactedBody : Type 0 where
  pub body : Bytes
  pub stats : ScanReport

module _ (x : External) (json_from_str : Bytes → Option Value) (engine : Engine x) where
  abbrev pub written_json : Value → Fallible BodyRedactionError Bytes
  written_json value = elim (x.json_to_string value) [
    | none ↦ err json_serialize
    | some text ↦ ok text
  ]

  unfoldable pub redact_json_body : Value → Fallible BodyRedactionError RedactedBody
  redact_json_body value = do
    result ← map_err core_failed (redact_value x engine value)
    output ← written_json result.0
    ok (record { body = output; stats = result.1 })

  unfoldable pub redact_text_body : Bytes → Fallible BodyRedactionError RedactedBody
  redact_text_body input = do
    result ← map_err core_failed (redact_str x engine input)
    ok (record { body = result.0; stats = result.1 })

  module _ (input : Bytes) (prefer_jsonl : Bool) where
    -- The loop of `redact_jsonl_or_text`, with `parsed_any_json` and what it has written and counted.
    unfoldable pub redact_body_lines :
        List Bytes → Bool → RedactedBody → Fallible BodyRedactionError RedactedBody
    unfolding redact_json_body redact_text_body
    redact_body_lines [] parsed done =
        if parsed || prefer_jsonl then ok done else redact_text_body input
    redact_body_lines (line ∷ lines) parsed done =
        let (content, newline) = split_line_ending line in
        if is_empty (trim content)
        then redact_body_lines lines parsed
            (record done { body = done.body ++ (content ++ newline) })
        else elim (json_from_str content) [
          | some value ↦
              (redact_json_body value >>= λ result. redact_body_lines lines true (record {
                body = done.body ++ (result.body ++ newline);
                stats = merge done.stats result.stats;
              }))
          | none ↦
              if prefer_jsonl
              then (redact_text_body content >>= λ result. redact_body_lines lines parsed (record {
                body = done.body ++ (result.body ++ newline);
                stats = merge done.stats result.stats;
              }))
              else redact_text_body input
        ]

    unfoldable pub redact_jsonl_or_text : Fallible BodyRedactionError RedactedBody
    unfolding redact_body_lines
    redact_jsonl_or_text =
        if prefer_jsonl || contains input (codes "\n")
        then redact_body_lines (split_inclusive input) false
            (record { body = []; stats = default_report })
        else redact_text_body input

  -- The media type in lower case, and empty where there is none that is text.
  abbrev pub media_type_of : (Bytes → Option Bytes) → Option Bytes → Bytes
  media_type_of to_str none = []
  media_type_of to_str (some value) = elim (to_str value) [ none ↦ [] | some raw ↦ lowercase raw ]

  unfoldable pub redact_typed : Bytes → Bytes → Fallible BodyRedactionError RedactedBody
  unfolding redact_json_body redact_text_body redact_jsonl_or_text
  redact_typed media_type input =
      if is_json_media_type media_type
      then elim (json_from_str input) [
        | some value ↦ redact_json_body value
        | none ↦ redact_jsonl_or_text input true
      ]
      else if is_jsonl_media_type media_type
      then redact_jsonl_or_text input true
      else redact_text_body input

  unfoldable pub redact_body :
      (Bytes → Option Bytes) → Bytes → Option Bytes → Fallible BodyRedactionError RedactedBody
  unfolding redact_typed
  redact_body to_str body content_type =
      if is_empty body
      then ok (record { body = []; stats = default_report })
      else if is_utf8 body
      then redact_typed (media_type_of to_str content_type) body
      else err invalid_utf8
