-- ===== src/Pages/Tempo.antt =====
-- `ExtractBPM` of pkg/sgtm/processing.go: the mean tempo of the lines that sonic-annotator prints.
pub mod Laws
use sgtm.Common.{
  ℕ, zero, suc, ◌+◌, String, Option, none, some, List, [], ◌∷◌, ◌<>◌, str_eq, if◌then◌else◌,
  trim_space,
}
use sgtm.Db.{Error, Result, ok, err, panic, failed, error_text, then_result}
use sgtm.Service.{Tempo}

-- `record[2]`, where the record has at least three fields.
unfoldable pub third : List String → Option String
third (a ∷ b ∷ c ∷ rest) = some c
third (a ∷ b ∷ []) = none
third (a ∷ []) = none
third [] = none

module _ (lib : Tempo) where
  -- The value of one record.
  unfoldable pub value_of : List String → Result ℕ
  unfolding third
  value_of line = elim (third line) [
    | none ↦ err (failed ("invalid format: " <> lib.quoted line))
    | some text ↦ elim (lib.parse_float text) [
      | none ↦ err (failed ("not a float: " <> lib.quoted line))
      | some f ↦ ok f
    ]
  ]

  -- The loop over the records, with the sum and the number so far; behind the last record there is
  -- the end of the text or an error of the reader.
  unfoldable pub sum_records : List (List String) → Option Error → ℕ → ℕ → Result (ℕ × ℕ)
  unfolding value_of
  sum_records [] none total count = ok (total, count)
  sum_records [] (some e) total count = err (failed ("failed to read csv: " <> error_text e))
  sum_records (line ∷ lines) last total count =
      then_result (value_of line)
        λ f. sum_records lines last (lib.add total f) (lib.add count lib.one)

  -- The mean, rounded to two decimals.
  unfoldable pub extract_bpm : String → Result ℕ
  unfolding sum_records
  extract_bpm path = then_result (lib.annotate path) λ out.
      let content = trim_space out in
      if str_eq content ""
      then err (failed "bpm not extracted")
      else then_result
          (sum_records (lib.read_csv content).0 (lib.read_csv content).1 lib.zero lib.zero)
          (λ (total, count). ok (lib.round_to_cents (lib.divide total count)))
