-- ===== src/Web/Hoare.antt =====
-- What holds after a part of a handler, by how it ended, and the rule for a sequence.
use sgtm.Common.{Bool, true, false, if◌then◌else◌, ◌⊎◌, inl, inr, ◌≡◌, refl, ◌∙◌}
use sgtm.Db.{Error, Result, ok, err, panic}
use sgtm.Web.Message.{Writer}
use sgtm.Web.Handler.{
  World, Flow, next, stop, crash, Page, go_on, ◌>>=◌, ◌>>◌, ask, answer, pure, halt, fault, respond,
  value_or,
}

module _ {S A : Type 0} where
  -- `Q` after a part that goes on, `R` where the handler has ended.
  abbrev pub After : (A → World S → Type 0) → (World S → Type 0) → Flow A × World S → Type 0
  After Q R (next a, w) = Q a w
  After Q R (stop, w) = R w
  After Q R (crash, w) = R w

module _ {S A B : Type 0} where
  pub After-go_on :
      (P : A → World S → Type 0) (Q : B → World S → Type 0) (R : World S → Type 0)
      (x : Flow A × World S) (f : A → Page S B)
      → After P R x
      → ((a : A) (w : World S) → P a w → After Q R (f a w))
      → After Q R (go_on x f)
  After-go_on P Q R (next a, w) f h k = k a w h
  After-go_on P Q R (stop, w) f h k = h
  After-go_on P Q R (crash, w) f h k = h

-- The database is the one that the handler began with.
abbrev pub Same : {S : Type 0} → S → World S → Type 0
Same s w = w.db ≡ s

-- A part that leaves the database alone, however it ends.
pub record Reads {S A : Type 0} (m : Page S A) : Type 0 where
  pub same_db : (w : World S) → (m w).1.db ≡ w.db

module _ {S A : Type 0} where
  pub Reads->>= :
      {B : Type 0} (m : Page S A) (f : A → Page S B)
      → Reads m
      → ((a : A) → Reads (f a))
      → Reads (m >>= f)
  unfolding ◌>>=◌
  Reads->>= {B} m f h k = record { same_db = λ w. go w (m w) (h.same_db w) }
    where
      go : (w : World S) (x : Flow A × World S) → x.1.db ≡ w.db → (go_on {B = B} x f).1.db ≡ w.db
      go w (next a, v) e = (k a).same_db v ∙ e
      go w (stop, v) e = e
      go w (crash, v) e = e

  pub Reads->> : {B : Type 0} (m : Page S A) (n : Page S B) → Reads m → Reads n → Reads (m >> n)
  unfolding ◌>>◌
  Reads->> m n h k = Reads->>= m (λ _. n) h (λ _. k)

  pub Reads-ask : (f : S → Result A) → Reads (ask f)
  unfolding ask
  Reads-ask f = record { same_db = λ w. go w (f w.db) }
    where
      go : (w : World S) (r : Result A) → (answer w r w.db).1.db ≡ w.db
      go w (ok a) = refl
      go w (err e) = refl
      go w panic = refl

  pub Reads-pure : (a : A) → Reads {S = S} (pure a)
  unfolding pure
  Reads-pure a = record { same_db = λ w. refl }

  pub Reads-halt : Reads {S = S} {A = A} halt
  unfolding halt
  Reads-halt = record { same_db = λ w. refl }

  pub Reads-fault : Reads {S = S} {A = A} fault
  unfolding fault
  Reads-fault = record { same_db = λ w. refl }

  pub Reads-if : (b : Bool) (m n : Page S A) → Reads m → Reads n → Reads (if b then m else n)
  Reads-if true m n h k = h
  Reads-if false m n h k = k

pub Reads-respond : {S : Type 0} (f : Writer → Writer) → Reads {S = S} (respond f)
unfolding respond
Reads-respond f = record { same_db = λ w. refl }

pub Reads-value_or :
    {S A : Type 0} (handle : Error → Page S (Unit {0})) (x : Error ⊎ A)
    → ((e : Error) → Reads (handle e))
    → Reads (value_or handle x)
unfolding value_or
Reads-value_or handle (inl e) h = Reads->> (handle e) halt (h e) Reads-halt
Reads-value_or handle (inr a) h = Reads-pure a

pub ruleset reads = (
  Reads->>=, Reads->>, Reads-ask, Reads-pure, Reads-halt, Reads-fault, Reads-if, Reads-respond,
  Reads-value_or,
)
