-- ===== src/Web/Handler.antt =====
-- Handlers: programs that read and change the database and the response, and that may return early
-- or panic.
use sgtm.Common.{◌⊎◌, inl, inr, Bool, true, false}
use sgtm.Db.{Error, Result, ok, err, panic, Action}
use sgtm.Web.Message.{Writer}

pub record World (S : Type 0) : Type 0 where
  pub db : S
  pub writer : Writer

-- How a part of a handler ends: it goes on, the handler has returned, or it has panicked.
pub data Flow {ℓ} (A : Type ℓ) : Type ℓ where
  next : A → Flow A
  stop : Flow A
  crash : Flow A

abbrev pub Page : Type 0 → Type 0 → Type 0
Page S A = World S → Flow A × World S

abbrev pub go_on : {S A B : Type 0} → Flow A × World S → (A → Page S B) → Flow B × World S
go_on (next a, w) f = f a w
go_on (stop, w) f = (stop, w)
go_on (crash, w) f = (crash, w)

infixl 5 ◌>>=◌ ◌>>◌
unfoldable pub ◌>>=◌ : {S A B : Type 0} → Page S A → (A → Page S B) → Page S B
◌>>=◌ m f w = go_on (m w) f

unfoldable pub ◌>>◌ : {S A B : Type 0} → Page S A → Page S B → Page S B
unfolding ◌>>=◌
m >> k = m >>= λ _. k

module _ {S A : Type 0} where
  unfoldable pub pure : A → Page S A
  pure a w = (next a, w)

  -- `return`
  unfoldable pub halt : Page S A
  halt w = (stop, w)

  -- a nil dereference or an index out of range
  unfoldable pub fault : Page S A
  fault w = (crash, w)

  abbrev pub answer : World S → Result A → S → Flow (Error ⊎ A) × World S
  answer w (ok a) s = (next (inr a), record w { db = s })
  answer w (err e) s = (next (inl e), record w { db = s })
  answer w panic s = (crash, record w { db = s })

  -- A query of the store, and a call that may change it.
  unfoldable pub ask : (S → Result A) → Page S (Error ⊎ A)
  ask f w = answer w (f w.db) w.db

  unfoldable pub act : Action S A → Page S (Error ⊎ A)
  act m w = let (r, s) = m w.db in answer w r s

  -- `if err != nil { …; return }`
  unfoldable pub value_or : (Error → Page S (Unit {0})) → Error ⊎ A → Page S A
  unfolding ◌>>=◌ ◌>>◌ halt pure
  value_or handle (inl e) = handle e >> halt
  value_or handle (inr a) = pure a

unfoldable pub respond : {S : Type 0} → (Writer → Writer) → Page S (Unit {0})
respond f w = (next tt, record w { writer = f w.writer })

unfoldable pub when : {S : Type 0} → Bool → Page S (Unit {0}) → Page S (Unit {0})
unfolding pure
when true m = m
when false m = pure tt
