-- ===== src/Pages/Tempo/Laws.antt =====
-- The tempo is the mean of the third columns.
use sgtm.Common.{
  ℕ, String, List, [], ◌∷◌, Option, none, some, ◌≡◌, refl, ap, ◌∙◌, sym, ◌<>◌, str_eq,
  if◌then◌else◌, trim_space,
}
use sgtm.Db.{Error, Result, ok, err, panic, failed, error_text, then_result}
use sgtm.Service.{Tempo}
use sgtm.Pages.Tempo.{value_of, sum_records, extract_bpm}

-- The values of all elements, or the first error.
unfoldable pub all_ok : {A B : Type 0} → (A → Result B) → List A → Result (List B)
all_ok f [] = ok []
all_ok f (x ∷ xs) =
    let rest = all_ok f xs in then_result (f x) (λ y. then_result rest (λ ys. ok (y ∷ ys)))

unfoldable pub fold : {A B : Type 0} → (B → A → B) → B → List A → B
fold f b [] = b
fold f b (x ∷ xs) = fold f (f b x) xs

then_result-then_result :
    {A B C : Type 0} (r : Result A) (f : A → Result B) (k : B → Result C)
    → then_result (then_result r f) k ≡ then_result r (λ a. then_result (f a) k)
then_result-then_result (ok a) f k = refl
then_result-then_result (err e) f k = refl
then_result-then_result panic f k = refl

module _ (lib : Tempo) where
  -- The sum of some values, and their number, both as floats.
  abbrev pub total : ℕ → List ℕ → ℕ
  total t fs = fold lib.add t fs

  abbrev pub number : ℕ → List ℕ → ℕ
  number c fs = fold (λ n f. lib.add n lib.one) c fs

  abbrev pub unless_error : Option Error → ℕ × ℕ → Result (ℕ × ℕ)
  unless_error none x = ok x
  unless_error (some e) x = err (failed ("failed to read csv: " <> error_text e))

  sum_records-all_ok :
      (lines : List (List String)) (last : Option Error) (t c : ℕ)
      → sum_records lib lines last t c
        ≡ then_result
            (all_ok (value_of lib) lines)
            (λ fs. unless_error last (total t fs, number c fs))
  unfolding sum_records all_ok fold
  sum_records-all_ok [] none t c = refl
  sum_records-all_ok [] (some e) t c = refl
  sum_records-all_ok (line ∷ lines) last t c =
      by_value (value_of lib line)
        (λ f. sum_records-all_ok lines last (lib.add t f) (lib.add c lib.one))
    where
      by_value :
          (r : Result ℕ)
          → ((f : ℕ)
              → sum_records lib lines last (lib.add t f) (lib.add c lib.one)
                ≡ then_result (all_ok (value_of lib) lines) (λ fs.
                  unless_error last (total (lib.add t f) fs, number (lib.add c lib.one) fs)))
          → then_result r (λ f. sum_records lib lines last (lib.add t f) (lib.add c lib.one))
            ≡ then_result
                (then_result r (λ f. then_result (all_ok (value_of lib) lines) (λ fs. ok (f ∷ fs))))
                (λ fs. unless_error last (total t fs, number c fs))
      by_value (ok f) h = h f ∙ sym (then_result-then_result (all_ok (value_of lib) lines) _ _)
      by_value (err e) h = refl
      by_value panic h = refl

  -- The specification: the mean of the values of all records, if the program printed some, every
  -- record has a value and the reader came to the end.
  abbrev pub mean_of : String → Result ℕ
  mean_of content = then_result (all_ok (value_of lib) (lib.read_csv content).0) λ fs.
      then_result (unless_error (lib.read_csv content).1 (total lib.zero fs, number lib.zero fs))
        λ x. ok (lib.round_to_cents (lib.divide x.0 x.1))

  abbrev pub if_text : String → Result ℕ → Result ℕ
  if_text out r = if str_eq (trim_space out) "" then err (failed "bpm not extracted") else r

  unfoldable pub mean_tempo : String → Result ℕ
  mean_tempo path = then_result (lib.annotate path) λ out. if_text out (mean_of (trim_space out))

  -- What the loop makes of a text.
  abbrev loop_of : String → Result ℕ
  loop_of content =
      then_result
        (sum_records lib (lib.read_csv content).0 (lib.read_csv content).1 lib.zero lib.zero)
        (λ x. ok (lib.round_to_cents (lib.divide x.0 x.1)))

  loop_of-mean_of : (content : String) → loop_of content ≡ mean_of content
  loop_of-mean_of content =
      ap (λ r. then_result r (λ x. ok (lib.round_to_cents (lib.divide x.0 x.1))))
        (sum_records-all_ok (lib.read_csv content).0 (lib.read_csv content).1 lib.zero lib.zero)
      ∙ then_result-then_result (all_ok (value_of lib) (lib.read_csv content).0) _ _

  -- The loop of `ExtractBPM`, with its running sum and number, gives for every file what the
  -- specification gives: the rounded quotient of the sum and the number of the values of all
  -- records, and otherwise the first error, of sonic-annotator, of a record or of the reader.
  pub extract_bpm-mean_tempo : (path : String) → extract_bpm lib path ≡ mean_tempo path
  unfolding extract_bpm mean_tempo
  extract_bpm-mean_tempo path = by_output (lib.annotate path)
    where
      by_output :
          (r : Result String)
          → then_result r (λ out. if_text out (loop_of (trim_space out)))
            ≡ then_result r (λ out. if_text out (mean_of (trim_space out)))
      by_output (ok out) = ap (if_text out) (loop_of-mean_of (trim_space out))
      by_output (err e) = refl
      by_output panic = refl
