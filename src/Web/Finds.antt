-- ===== src/Web/Finds.antt =====
-- What a part of a handler has established when it goes on, if it only reads the database; and the
-- database behind a part that makes one change.
use mathlib.Core.Path.{subst}
use sgtm.Common.{Bool, true, false, if◌then◌else◌, ◌⊎◌, inl, inr, ◌≡◌, refl, sym, ap, arith, ◌∙◌}
use sgtm.Db.{Error, Result, ok, err, panic, Action}
use sgtm.Web.Handler.{
  World, Flow, next, stop, crash, Page, go_on, ◌>>=◌, ◌>>◌, ask, act, answer, pure, halt, fault,
  value_or,
}
use sgtm.Web.Hoare.{Reads}

abbrev pub Going : {S A : Type 0} → (A → Type 0) → Flow A × World S → Type 0
Going Q (next a, w) = Q a
Going Q (stop, w) = Unit
Going Q (crash, w) = Unit

-- From the database `s` the part leaves it as it is, and goes on only with values that meet `Q`.
pub record Finds {S A : Type 0} (s : S) (Q : A → Type 0) (m : Page S A) : Type 0 where
  pub same_db : (w : World S) → w.db ≡ s → (m w).1.db ≡ s
  pub going : (w : World S) → w.db ≡ s → Going Q (m w)

-- What a query's answer says of the database.
abbrev pub Answers : {A : Type 0} → Result A → Error ⊎ A → Type 0
Answers r (inl e) = r ≡ err e
Answers r (inr a) = r ≡ ok a

pub Answers-ok :
    {A : Type 0} (r : Result A) (x : Error ⊎ A) (a : A) → Answers r x → x ≡ inr a → r ≡ ok a
Answers-ok r (inl e) a h same = absurd (ground arith)
Answers-ok r (inr b) a h same = let e : b ≡ a = cc in h ∙ ap ok e

module _ {S A : Type 0} where
  pub Finds->>= :
      {B : Type 0} {s : S} {P : A → Type 0} {Q : B → Type 0} {m : Page S A} {f : A → Page S B}
      → Finds s P m
      → ((a : A) → P a → Finds s Q (f a))
      → Finds s Q (m >>= f)
  unfolding ◌>>=◌
  Finds->>= {B} {s} {P} {Q} {m} {f} h k = record {
    same_db = λ w e. keeps (m w) (h.same_db w e) (h.going w e);
    going = λ w e. goes (m w) (h.same_db w e) (h.going w e);
  }
    where
      keeps : (x : Flow A × World S) → x.1.db ≡ s → Going P x → (go_on {B = B} x f).1.db ≡ s
      keeps (next a, v) e p = (k a p).same_db v e
      keeps (stop, v) e p = e
      keeps (crash, v) e p = e

      goes : (x : Flow A × World S) → x.1.db ≡ s → Going P x → Going Q (go_on {B = B} x f)
      goes (next a, v) e p = (k a p).going v e
      goes (stop, v) e p = tt
      goes (crash, v) e p = tt

  pub Finds-Reads : {s : S} {m : Page S A} → Reads m → Finds s (λ _. Unit {0}) m
  Finds-Reads {s} {m} h = record { same_db = λ w e. h.same_db w ∙ e; going = λ w e. trivial (m w) }
    where
      trivial : (x : Flow A × World S) → Going (λ _. Unit {0}) x
      trivial (next a, v) = tt
      trivial (stop, v) = tt
      trivial (crash, v) = tt

  pub Finds->> :
      {B : Type 0} {s : S} {Q : B → Type 0} {m : Page S A} {n : Page S B}
      → Reads m
      → Finds s Q n
      → Finds s Q (m >> n)
  unfolding ◌>>◌
  Finds->> h k = Finds->>= (Finds-Reads h) (λ _ _. k)

  pub Finds-pure : {s : S} {Q : A → Type 0} (a : A) → Q a → Finds s Q (pure a)
  unfolding pure
  Finds-pure a q = record { same_db = λ w e. e; going = λ w e. q }

  pub Finds-if :
      {s : S} {Q : A → Type 0} (b : Bool) {m n : Page S A}
      → (b ≡ true → Finds s Q m)
      → (b ≡ false → Finds s Q n)
      → Finds s Q (if b then m else n)
  Finds-if true h k = h refl
  Finds-if false h k = k refl

  pub Finds-halt : {s : S} (Q : A → Type 0) → Finds s Q halt
  unfolding halt
  Finds-halt Q = record { same_db = λ w e. e; going = λ w e. tt }

  pub Finds-fault : {s : S} (Q : A → Type 0) → Finds s Q fault
  unfolding fault
  Finds-fault Q = record { same_db = λ w e. e; going = λ w e. tt }

  answers :
      (w : World S) (f : S → Result A) (r : Result A)
      → f w.db ≡ r
      → Going (Answers (f w.db)) (answer w r w.db)
  answers w f (ok a) e = e
  answers w f (err x) e = e
  answers w f panic e = tt

  kept : (w : World S) (r : Result A) → (answer w r w.db).1.db ≡ w.db
  kept w (ok a) = refl
  kept w (err x) = refl
  kept w panic = refl

  pub Finds-ask : {s : S} (f : S → Result A) → Finds s (Answers (f s)) (ask f)
  unfolding ask
  Finds-ask {s} f = record {
    same_db = λ w e. kept w (f w.db) ∙ e;
    going = λ w e.
        subst (λ (z : S). Going (Answers (f z)) (answer w (f w.db) w.db)) e
          (answers w f (f w.db) refl);
  }

pub Finds-value_or :
    {S A : Type 0} {s : S} {handle : Error → Page S (Unit {0})} (x : Error ⊎ A)
    → ((e : Error) → Reads (handle e))
    → Finds s (λ a. x ≡ inr a) (value_or handle x)
unfolding value_or
Finds-value_or (inl e) h = Finds->> (h e) (Finds-halt _)
Finds-value_or (inr a) h = Finds-pure a refl

-- A part whose one change is the action `m`.
pub act-then :
    {S A B : Type 0} (m : Action S A) (k : Error ⊎ A → Page S B) (w : World S)
    → ((x : Error ⊎ A) → Reads (k x))
    → ((act m >>= k) w).1.db ≡ (m w.db).1
unfolding ◌>>=◌ act
act-then {S} {A} {B} m k w h = go (m w.db)
  where
    go : (x : Result A × S) → (go_on {B = B} (answer w x.0 x.1) k).1.db ≡ x.1
    go (ok a, s) = (h (inr a)).same_db _
    go (err e, s) = (h (inl e)).same_db _
    go (panic, s) = refl

pub Finds-weaken :
    {S A : Type 0} {s : S} {P Q : A → Type 0} {m : Page S A}
    → Finds s P m
    → ((a : A) → P a → Q a)
    → Finds s Q m
Finds-weaken {S} {A} {s} {P} {Q} {m} h k = record {
  same_db = h.same_db;
  going = λ w e. go (m w) (h.going w e);
}
  where
    go : (x : Flow A × World S) → Going P x → Going Q x
    go (next a, v) p = k a p
    go (stop, v) p = tt
    go (crash, v) p = tt

pub Finds-then :
    {S A B : Type 0} {s : S} {P : A → Type 0} {Q : B → Type 0} {m : Page S A} {n : Page S B}
    → Finds s P m
    → ((a : A) → P a → Finds s Q n)
    → Finds s Q (m >> n)
unfolding ◌>>◌
Finds-then h k = Finds->>= h k

-- A handler in two parts: the first reads, and the second has made what it makes of the first's
-- database and of a value that the first vouches for; or there is no second.
pub in_two_parts :
    {S A B : Type 0} {P : A → Type 0} (m : Page S A) (f : A → Page S B) (w : World S)
    (T : S → Type 0)
    → Finds w.db P m
    → T w.db
    → ((a : A) (v : World S) → P a → v.db ≡ w.db → T (f a v).1.db)
    → T ((m >>= f) w).1.db
unfolding ◌>>=◌
in_two_parts {S} {A} {B} {P} m f w T h stays goes = go (m w) (h.same_db w refl) (h.going w refl)
  where
    go : (x : Flow A × World S) → x.1.db ≡ w.db → Going P x → T (go_on {B = B} x f).1.db
    go (next a, v) e p = goes a v p e
    go (stop, v) e p = subst T (sym e) stays
    go (crash, v) e p = subst T (sym e) stays

-- A part that leaves every database alone only reads.
pub Reads-Finds :
    {S A : Type 0} {m : Page S A} {P : S → A → Type 0} → ((s : S) → Finds s (P s) m) → Reads m
Reads-Finds h = record { same_db = λ w. (h w.db).same_db w refl }
