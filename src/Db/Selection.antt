-- ===== src/Db/Selection.antt =====
-- Selecting rows, which the database in memory answers its queries by.
use mathlib.Core.Path.{subst}
use sgtm.Common.{
  ℕ, zero, suc, ◌≤◌, ◌≡◌, refl, sym, Bool, true, false, Option, none, some, List, [], ◌∷◌, length,
  All, if◌then◌else◌, arith,
}
use sgtm.Db.Outcome.{Result, Error, ok, err, record_not_found}

module _ {A : Type 0} where
  unfoldable pub select : (A → Bool) → List A → List A
  select test [] = []
  select test (x ∷ xs) = let rest = select test xs in if test x then x ∷ rest else rest

  unfoldable pub first : List A → Result A
  first [] = err record_not_found
  first (x ∷ xs) = ok x

  unfoldable pub take : ℕ → List A → List A
  take zero xs = []
  take (suc n) [] = []
  take (suc n) (x ∷ xs) = x ∷ take n xs

  unfoldable pub cut : Option ℕ → List A → List A
  cut none xs = xs
  cut (some n) xs = take n xs

  pub select-All : (test : A → Bool) (xs : List A) → All (λ x. test x ≡ true) (select test xs)
  unfolding select
  select-All test [] = tt
  select-All test (x ∷ xs) = ground (arith, select-All test xs)

  take-All : (P : A → Type 0) (n : ℕ) (xs : List A) → All P xs → All P (take n xs)
  unfolding take
  take-All P zero xs h = tt
  take-All P (suc n) [] h = tt
  take-All P (suc n) (x ∷ xs) h = (h.0, take-All P n xs h.1)

  pub cut-All : (P : A → Type 0) (n : Option ℕ) (xs : List A) → All P xs → All P (cut n xs)
  unfolding cut
  cut-All P none xs h = h
  cut-All P (some n) xs h = take-All P n xs h

  pub length-take : (n : ℕ) (xs : List A) → length (take n xs) ≤ n
  unfolding take
  length-take zero xs = omega arith
  length-take (suc n) [] = omega arith
  length-take (suc n) (x ∷ xs) = omega (arith, length-take n xs)

  pub length-cut : (o : Option ℕ) (n : ℕ) (xs : List A) → o ≡ some n → length (cut o xs) ≤ n
  unfolding cut
  length-cut none n xs e = cc
  length-cut (some k) n xs e = let same : k ≡ n = cc in rw (← same) (length-take k xs)

  pub first-holds : (P : A → Type 0) (xs : List A) (a : A) → All P xs → first xs ≡ ok a → P a
  unfolding first
  first-holds P [] a h e = cc
  first-holds P (x ∷ xs) a h e = let same : x ≡ a = cc in subst P same h.0

  -- What a search that ended with nothing says of all rows.
  pub first-none :
      (test : A → Bool) (xs : List A) (e : Error)
      → first (select test xs) ≡ err e
      → (e ≡ record_not_found) × All (λ x. test x ≡ false) xs
  unfolding first select
  first-none test [] e h = let same : record_not_found ≡ e = cc in (sym same, tt)
  first-none test (x ∷ xs) e h = by_test (λ k. first-none test xs e k) (test x) refl h
    where
      by_test :
          (first (select test xs) ≡ err e → (e ≡ record_not_found) × All (λ x. test x ≡ false) xs)
          → (b : Bool) → test x ≡ b
          → first (if b then x ∷ select test xs else select test xs) ≡ err e
          → (e ≡ record_not_found) × ((test x ≡ false) × All (λ x. test x ≡ false) xs)
      by_test later true same k = cc
      by_test later false same k = let (rest, all) = later k in (rest, (same, all))

  pub select-keeps :
      (P : A → Type 0) (test : A → Bool) (xs : List A) → All P xs → All P (select test xs)
  unfolding select
  select-keeps P test [] h = tt
  select-keeps P test (x ∷ xs) h = by_test (select-keeps P test xs h.1) (test x)
    where
      by_test :
          All P (select test xs)
          → (b : Bool) → All P (if b then x ∷ select test xs else select test xs)
      by_test later true = (h.0, later)
      by_test later false = later
