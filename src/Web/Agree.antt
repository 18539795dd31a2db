-- ===== src/Web/Agree.antt =====
-- Two runs of a handler over databases that some relation holds between: what the queries of a part
-- do not tell apart, its response does not tell apart.
use mathlib.Core.Path.{subst}
use sgtm.Common.{◌≡◌, refl, ap, Bool, true, false, ◌⊎◌, inl, inr, if◌then◌else◌}
use sgtm.Db.{Error, Result, ok, err, panic, Action}
use sgtm.Web.Message.{Writer}
use sgtm.Web.Handler.{
  World, Flow, next, stop, crash, Page, go_on, ◌>>=◌, ◌>>◌, act, ask, answer, pure, halt, fault,
  respond, value_or,
}

-- The same end and the same response, over related databases.
abbrev pub Alike : {S A : Type 0} → (S → S → Type 0) → Flow A × World S → Flow A × World S → Type 0
Alike R x y = (x.0 ≡ y.0) × (x.1.writer ≡ y.1.writer) × R x.1.db y.1.db

pub record Agrees {S A : Type 0} (R : S → S → Type 0) (m : Page S A) : Type 0 where
  pub agrees : (w w' : World S) → R w.db w'.db → w.writer ≡ w'.writer → Alike R (m w) (m w')

-- A query that gives the same over related databases, and a call that does and keeps them related.
abbrev pub Same : {S A : Type 0} → (S → S → Type 0) → (S → A) → Type 0
Same {S} R f = (s s' : S) → R s s' → f s ≡ f s'

abbrev pub SameCall : {S A : Type 0} → (S → S → Type 0) → Action S A → Type 0
SameCall {S} R m = (s s' : S) → R s s' → ((m s).0 ≡ (m s').0) × R (m s).1 (m s').1

answer-Alike :
    {S A : Type 0} (R : S → S → Type 0) (w w' : World S) (x : Result A) (s s' : S)
    → w.writer ≡ w'.writer
    → R s s'
    → Alike R (answer w x s) (answer w' x s')
answer-Alike R w w' (ok a) s s' e r = (refl, e, r)
answer-Alike R w w' (err f) s s' e r = (refl, e, r)
answer-Alike R w w' panic s s' e r = (refl, e, r)

module _ {S : Type 0} {R : S → S → Type 0} where
  pub Agrees-pure : {A : Type 0} (a : A) → Agrees R (pure a)
  unfolding pure
  Agrees-pure a = record { agrees = λ w w' r e. (refl, e, r) }

  pub Agrees-halt : {A : Type 0} → Agrees R (halt {A = A})
  unfolding halt
  Agrees-halt = record { agrees = λ w w' r e. (refl, e, r) }

  pub Agrees-fault : {A : Type 0} → Agrees R (fault {A = A})
  unfolding fault
  Agrees-fault = record { agrees = λ w w' r e. (refl, e, r) }

  pub Agrees-respond : (f : Writer → Writer) → Agrees R (respond f)
  unfolding respond
  Agrees-respond f = record { agrees = λ w w' r e. (refl, ap f e, r) }

  pub Agrees->>= :
      {A B : Type 0} (m : Page S A) (f : A → Page S B)
      → Agrees R m
      → ((a : A) → Agrees R (f a))
      → Agrees R (m >>= f)
  unfolding ◌>>=◌
  Agrees->>= {A} {B} m f h k = record {
    agrees = λ w w' r e.
        let x = m w in
        let y = m w' in
        let (same, out, related) = h.agrees w w' r e in
        subst (λ z. Alike R (go_on {B = B} x f) (go_on {B = B} (z, y.1) f)) same
          (go x.0 x.1 y.1 out related);
  }
    where
      go :
          (z : Flow A) (v v' : World S)
          → v.writer ≡ v'.writer
          → R v.db v'.db
          → Alike R (go_on {B = B} (z, v) f) (go_on {B = B} (z, v') f)
      go (next a) v v' e r = (k a).agrees v v' r e
      go stop v v' e r = (refl, e, r)
      go crash v v' e r = (refl, e, r)

  pub Agrees->> :
      {A B : Type 0} (m : Page S A) (n : Page S B) → Agrees R m → Agrees R n → Agrees R (m >> n)
  unfolding ◌>>◌
  Agrees->> m n h k = Agrees->>= m (λ _. n) h (λ _. k)

  pub Agrees-ask : {A : Type 0} (f : S → Result A) → Same R f → Agrees R (ask f)
  unfolding ask
  Agrees-ask f h = record {
    agrees = λ w w' r e.
        subst (λ x. Alike R (answer w (f w.db) w.db) (answer w' x w'.db)) (h w.db w'.db r)
          (answer-Alike R w w' (f w.db) w.db w'.db e r);
  }

  pub Agrees-act : {A : Type 0} (m : Action S A) → SameCall R m → Agrees R (act m)
  unfolding act
  Agrees-act m h = record {
    agrees = λ w w' r e.
        let (same, related) = h w.db w'.db r in
        subst (λ x. Alike R (answer w (m w.db).0 (m w.db).1) (answer w' x (m w'.db).1)) same
          (answer-Alike R w w' (m w.db).0 (m w.db).1 (m w'.db).1 e related);
  }

  pub Agrees-value_or :
      {A : Type 0} (handle : Error → Page S (Unit {0})) (x : Error ⊎ A)
      → ((e : Error) → Agrees R (handle e))
      → Agrees R (value_or handle x)
  unfolding value_or
  Agrees-value_or handle (inl e) h = Agrees->> (handle e) halt (h e) Agrees-halt
  Agrees-value_or handle (inr a) h = Agrees-pure a

  pub Agrees-if :
      {A : Type 0} (b : Bool) (m n : Page S A)
      → Agrees R m
      → Agrees R n
      → Agrees R (if b then m else n)
  Agrees-if true m n h k = h
  Agrees-if false m n h k = k

pub ruleset agree = (
  Agrees-pure, Agrees-halt, Agrees-fault, Agrees-respond, Agrees->>=, Agrees->>, Agrees-ask,
  Agrees-act, Agrees-value_or, Agrees-if,
)
