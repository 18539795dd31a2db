-- ===== src/Db/Outcome.antt =====
-- Go's `error` results, and code that changes the database: a state `S` passed along.
use sgtm.Common.{String, ◌≡◌, refl}

pub data Error : Type 0 where
  record_not_found : Error
  failed : String → Error

-- `err.Error()`
abbrev pub error_text : Error → String
error_text record_not_found = "record not found"
error_text (failed text) = text

-- `panic` is a run-time panic, such as a nil dereference.
pub data Result {ℓ} (A : Type ℓ) : Type ℓ where
  ok : A → Result A
  err : Error → Result A
  panic : Result A

abbrev pub IsFailure {ℓ} : {A : Type ℓ} → Result A → Type 0
IsFailure (ok a) = ⊥
IsFailure (err e) = Unit
IsFailure panic = Unit

abbrev pub Action : Type 0 → Type 0 → Type 0
Action S A = S → Result A × S

abbrev pub pure : {S A : Type 0} → A → Action S A
pure a s = (ok a, s)

abbrev pub raise : {S A : Type 0} → Error → Action S A
raise e s = (err e, s)

-- A query changes nothing.
abbrev pub query : {S A : Type 0} → (S → Result A) → Action S A
query f s = (f s, s)

-- What follows a step, by how the step ended.
abbrev pub continue : {S A B : Type 0} → Result A × S → (A → Action S B) → Result B × S
continue (ok a, s) f = f a s
continue (err e, s) f = (err e, s)
continue (panic, s) f = (panic, s)

-- `if err != nil { return err }` between two steps
infixl 5 ◌>>=◌ ◌>>◌
abbrev pub ◌>>=◌ : {S A B : Type 0} → Action S A → (A → Action S B) → Action S B
◌>>=◌ m f s = continue (m s) f

abbrev pub ◌>>◌ : {S A B : Type 0} → Action S A → Action S B → Action S B
m >> k = m >>= λ _. k

-- The same for a query: its error is returned, its value goes on.
abbrev pub then_result {ℓ κ} : {A : Type ℓ} {B : Type κ} → Result A → (A → Result B) → Result B
then_result (ok a) f = f a
then_result (err e) f = err e
then_result panic f = panic

-- A result comes only of a value that the query gave.
pub then_result-eq-ok {ℓ κ} :
    {A : Type ℓ} {B : Type κ} (r : Result A) (f : A → Result B) {b : B}
    → then_result r f ≡ ok b
    → (a : A) × (r ≡ ok a) × (f a ≡ ok b)
then_result-eq-ok (ok a) f h = (a, refl, h)
then_result-eq-ok (err e) f h = cc
then_result-eq-ok panic f h = cc

-- A step before a result that is at hand fails only by itself.
pub continue-pure_fails :
    {S A B : Type 0} (x : Result A × S) (b : B)
    → IsFailure (continue x (λ _. pure b)).0
    → IsFailure x.0 × ((continue x (λ _. pure b)).1 ≡ x.1)
continue-pure_fails (ok a, s) b h = absurd h
continue-pure_fails (err e, s) b h = (tt, refl)
continue-pure_fails (panic, s) b h = (tt, refl)

pub ok_inj {ℓ} : {A : Type ℓ} {a b : A} → ok a ≡ ok b → a ≡ b
ok_inj e = cc
