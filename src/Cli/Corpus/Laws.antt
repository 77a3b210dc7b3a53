-- ===== src/Cli/Corpus/Laws.antt =====
-- The corpus has the asked number of lines, each a record of its own.
use privacy_proxy.Base.{
  ℕ, zero, suc, Option, some, List, [], ◌∷◌, ◌++◌, ◌==◌, false, if◌then◌else◌, drop, ◌≡◌, refl, sym,
  ap, ◌∙◌, append_assoc, append-nil, true,
}
use privacy_proxy.Text.{Bytes, codes, equal, split}
use privacy_proxy.Text.Laws.{one_line, split_first-line}
use privacy_proxy.Text.Number.{decimal, padded, read_decimal, read_decimal-padded}
use privacy_proxy.Error.{ok}
use privacy_proxy.Json.{Value, Fields, string, object, end, field, insert, null}
use privacy_proxy.BTreeMap.{less}
use privacy_proxy.Cli.Corpus.{synthetic_record, corpus_lines, generate_corpus}

-- The value of a key of an object, and the index that a text holds behind four bytes.
pub member : Bytes → Fields → Value
member name end = null
member name (field key value fields) =
    let rest = member name fields in if equal key name then value else rest

abbrev pub index_in : Value → ℕ
index_in (object fields) = elim (member (codes "request_id") fields) [
  | string text ↦ (read_decimal 0 (drop 4 text)).0
  | _ ↦ 0
]
index_in _ = 0

-- The index of a record is read back from its `request_id`, also beyond eight digits.
pub index_in-synthetic_record : (index : ℕ) → index_in (synthetic_record index) ≡ index
unfolding synthetic_record insert equal less member read_decimal
index_in-synthetic_record index =
    ap (λ t. (read_decimal 0 t).0) (sym (append-nil (padded 8 (decimal index))))
    ∙ ap (λ t. t.0) (read_decimal-padded 8 index [])

-- The texts of the records from an index on.
abbrev pub record_lines : (Value → Bytes) → ℕ → ℕ → List Bytes
record_lines write index zero = []
record_lines write index (suc count) =
    write (synthetic_record index) ∷ record_lines write (suc index) count

abbrev ended : List Bytes → Bytes
ended [] = []
ended (line ∷ lines) = (line ++ b'\n' ∷ []) ++ ended lines

module _ (json_to_string : Value → Option Bytes) (write : Value → Bytes)
    (writes : (value : Value) → json_to_string value ≡ some (write value))
    (compact : (value : Value) → one_line (write value) ≡ true) where
  corpus_lines-ended :
      (index count : ℕ) (written : Bytes)
      → corpus_lines json_to_string index count written
        ≡ (written ++ ended (record_lines write index count), ok tt)
  unfolding corpus_lines
  corpus_lines-ended index zero written = ap (λ t. (t, ok tt)) (sym (append-nil written))
  corpus_lines-ended index (suc count) written =
      let line = write (synthetic_record index) ++ b'\n' ∷ [] in
      rw (corpus_lines, writes (synthetic_record index))
        (corpus_lines-ended (suc index) count (written ++ line)
          ∙ ap (λ t. (t, ok tt))
              (append_assoc written line (ended (record_lines write (suc index) count))))

  split-ended :
      (index count : ℕ)
      → split b'\n' (ended (record_lines write index count))
        ≡ record_lines write index count ++ [] ∷ []
  unfolding split
  split-ended index zero = refl
  split-ended index (suc count) =
      let line = write (synthetic_record index) in
      ap (split b'\n')
        (append_assoc line (b'\n' ∷ []) (ended (record_lines write (suc index) count)))
      ∙ ap (λ t. t.0 ∷ t.1) (split_first-line line _ (compact (synthetic_record index)))
      ∙ ap (◌∷◌ line) (split-ended (suc index) count)

-- If the JSON writer succeeds and writes no line feed: for a number of lines that is not 0, the
-- corpus is made without an error, and its lines are the texts of that many records, with the
-- indices from 0 on in order, each line ended.
pub split-generate_corpus :
    (json_to_string : Value → Option Bytes) (write : Value → Bytes) (lines : ℕ)
    → ((value : Value) → json_to_string value ≡ some (write value))
    → ((value : Value) → one_line (write value) ≡ true)
    → (lines == 0) ≡ false
    → ((generate_corpus json_to_string lines).1 ≡ ok tt)
      × (split b'\n' (generate_corpus json_to_string lines).0
          ≡ record_lines write 0 lines ++ [] ∷ [])
unfolding generate_corpus
split-generate_corpus json_to_string write lines writes compact some_lines =
    let all = corpus_lines-ended json_to_string write writes compact 0 lines [] in
    rw some_lines (
      ap (λ t. t.1) all,
      ap (λ t. split b'\n' t.0) all ∙ split-ended json_to_string write writes compact 0 lines,
    )
