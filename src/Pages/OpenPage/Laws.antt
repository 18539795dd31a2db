-- ===== src/Pages/OpenPage/Laws.antt =====
-- The uploads by weekday.
use mathlib.Core.Path.{subst}
use sgtm.Common.{
  sym, arith, ℕ, zero, suc, ◌<◌, ◌≡◌, refl, Option, none, some, List, [], ◌∷◌, length, All,
}
use sgtm.Common.Int.{ℤ, pos, negsuc}
use sgtm.Pb.{UploadsByWeek}
use sgtm.Pages.OpenPage.{set_at, set_weekdays, at_weekday}

-- The option holds a list of this length.
abbrev pub HasLength : ℕ → Option (List ℤ) → Type 0
HasLength n none = ⊥
HasLength n (some xs) = length xs ≡ n

abbrev pub IsBelow : ℕ → ℤ → Type 0
IsBelow n (pos i) = i < n
IsBelow n (negsuc i) = ⊥

HasLength-cons :
    (n : ℕ) (x : ℤ) (o : Option (List ℤ))
    → HasLength n o
    → HasLength (suc n) (elim o as (λ _. Option (List ℤ)) [ none ↦ none | some ys ↦ some (x ∷ ys) ])
HasLength-cons n x none h = h
HasLength-cons n x (some xs) h = omega (arith, h)

set_at-HasLength :
    (i : ℕ) (v : ℤ) (xs : List ℤ) → i < length xs → HasLength (length xs) (set_at i v xs)
unfolding set_at
set_at-HasLength i v [] h = absurd (omega (arith, h))
set_at-HasLength zero v (x ∷ xs) h = refl
set_at-HasLength (suc i) v (x ∷ xs) h =
    HasLength-cons (length xs) x (set_at i v xs) (set_at-HasLength i v xs (omega (arith, h)))

at_weekday-HasLength :
    (day v : ℤ) (xs : List ℤ)
    → IsBelow (length xs) day
    → HasLength (length xs) (at_weekday day v xs)
at_weekday-HasLength (pos i) v xs h = set_at-HasLength i v xs h
at_weekday-HasLength (negsuc i) v xs h = absurd h

-- Rows whose weekdays lie below the length of the list are all set without an index out of range,
-- and the list keeps its length.
pub set_weekdays-HasLength :
    (n : ℕ) (rows : List UploadsByWeek) (o : Option (List ℤ))
    → HasLength n o
    → All (λ row. IsBelow n row.weekday) rows
    → HasLength n (set_weekdays rows o)
unfolding set_weekdays
set_weekdays-HasLength n [] o h k = h
set_weekdays-HasLength n (row ∷ rows) none h k = absurd h
set_weekdays-HasLength n (row ∷ rows) (some xs) h k =
    set_weekdays-HasLength n rows (at_weekday row.weekday row.quantity xs)
      (subst (λ (m : ℕ). HasLength m (at_weekday row.weekday row.quantity xs)) h
        (at_weekday-HasLength row.weekday row.quantity xs
          (subst (λ (m : ℕ). IsBelow m row.weekday) (sym h) k.0)))
      k.1
