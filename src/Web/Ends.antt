-- ===== src/Web/Ends.antt =====
-- What holds of the database when a handler has ended, whichever way it ended.
use mathlib.Core.Path.{subst}
use sgtm.Common.{◌⊎◌, inl, inr, ◌≡◌, refl, sym, ap, ◌∙◌, Bool, true, false, if◌then◌else◌}
use sgtm.Db.{Error, Result, ok, err, panic, Action}
use sgtm.Web.Handler.{World, Flow, next, stop, crash, Page, go_on, ◌>>=◌, ◌>>◌, act, answer}
use sgtm.Web.Hoare.{Reads, After}
use sgtm.Web.Finds.{Finds, Going, in_two_parts, act-then}

-- From the database `s` the part ends with one that meets `T`.
pub record Ends {S A : Type 0} (s : S) (T : S → Type 0) (m : Page S A) : Type 0 where
  pub ended : (w : World S) → w.db ≡ s → T (m w).1.db

module _ {S A : Type 0} {s : S} {T : S → Type 0} where
  pub Ends-Reads : {m : Page S A} → Reads m → T s → Ends s T m
  Ends-Reads {m} h t = record { ended = λ w e. subst T (sym (h.same_db w ∙ e)) t }

  pub Ends->>= :
      {B : Type 0} {P : A → Type 0} {m : Page S A} {f : A → Page S B}
      → Finds s P m
      → T s
      → ((a : A) → P a → Ends s T (f a))
      → Ends s T (m >>= f)
  Ends->>= {B} {P} {m} {f} h t k = record {
    ended = λ w e.
        in_two_parts m f w T (subst (λ (z : S). Finds z P m) (sym e) h) (subst T (sym e) t)
          (λ a v p d. (k a p).ended v (d ∙ e));
  }

  pub Ends->> :
      {B : Type 0} {P : A → Type 0} {m : Page S A} {n : Page S B}
      → Finds s P m
      → T s
      → ((a : A) → P a → Ends s T n)
      → Ends s T (m >> n)
  unfolding ◌>>◌
  Ends->> h t k = Ends->>= h t k

  -- Whatever the part does.
  pub Ends-all : {m : Page S A} → ((s' : S) → T s') → Ends s T m
  Ends-all {m} h = record { ended = λ w e. h (m w).1.db }

  pub Ends-weaken :
      {U : S → Type 0} {m : Page S A} → Ends s T m → ((s' : S) → T s' → U s') → Ends s U m
  Ends-weaken h k = record { ended = λ w e. k _ (h.ended w e) }

  -- A part that only reads may follow.
  pub Ends-then :
      {B : Type 0} {m : Page S A} {f : A → Page S B}
      → Ends s T m
      → ((a : A) → Reads (f a))
      → Ends s T (m >>= f)
  unfolding ◌>>=◌
  Ends-then {B} {m} {f} h k = record { ended = λ w e. go (m w) (h.ended w e) }
    where
      go : (x : Flow A × World S) → T x.1.db → T (go_on {B = B} x f).1.db
      go (next a, v) t = subst T (sym ((k a).same_db v)) t
      go (stop, v) t = t
      go (crash, v) t = t

  -- One change, and what follows only reads.
  pub Ends-act :
      {B : Type 0} (m : Action S A) {f : Error ⊎ A → Page S B}
      → T (m s).1
      → ((x : Error ⊎ A) → Reads (f x))
      → Ends s T (act m >>= f)
  Ends-act m {f} t h = record {
    ended = λ w e. subst T (sym (act-then m f w h ∙ ap (λ (z : S). (m z).1) e)) t;
  }

  pub Ends-if :
      (b : Bool) {m n : Page S A}
      → (b ≡ true → Ends s T m)
      → (b ≡ false → Ends s T n)
      → Ends s T (if b then m else n)
  Ends-if true h k = h refl
  Ends-if false h k = k refl

-- A part that ends the handler with a database that meets `T`, or goes on from the same database.
pub record Splits {S A : Type 0} (s : S) (P : A → Type 0) (T : S → Type 0) (m : Page S A)
    : Type 0 where
  pub splits : (w : World S) → w.db ≡ s → After (λ a v. P a × (v.db ≡ s)) (λ v. T v.db) (m w)

module _ {S A : Type 0} {s : S} {P : A → Type 0} {T : S → Type 0} where
  pub Splits-Finds : {m : Page S A} → Finds s P m → T s → Splits s P T m
  Splits-Finds {m} h t = record { splits = λ w e. go (m w) (h.same_db w e) (h.going w e) }
    where
      go :
          (x : Flow A × World S)
          → x.1.db ≡ s
          → Going P x
          → After (λ a v. P a × (v.db ≡ s)) (λ v. T v.db) x
      go (next a, v) e p = (p, e)
      go (stop, v) e p = subst T (sym e) t
      go (crash, v) e p = subst T (sym e) t

  -- One change, and what follows never goes on.
  pub Splits-act :
      {B : Type 0} (m : Action S B) {f : Error ⊎ B → Page S A}
      → T (m s).1
      → ((x : Error ⊎ B) → Finds (m s).1 (λ _. ⊥) (f x))
      → Splits s P T (act m >>= f)
  unfolding ◌>>=◌ act
  Splits-act {B} m {f} t h = record { splits = λ w e. go w (m w.db) (ap (λ (z : S). (m z).1) e) }
    where
      left :
          (x : Flow A × World S)
          → x.1.db ≡ (m s).1
          → Going (λ _. ⊥) x
          → After (λ a v. P a × (v.db ≡ s)) (λ v. T v.db) x
      left (next a, v) e p = absurd p
      left (stop, v) e p = subst T (sym e) t
      left (crash, v) e p = subst T (sym e) t

      go :
          (w : World S) (x : Result B × S)
          → x.1 ≡ (m s).1
          → After (λ a v. P a × (v.db ≡ s)) (λ v. T v.db) (go_on {B = A} (answer w x.0 x.1) f)
      go w (ok a, v) e = left _ ((h (inr a)).same_db _ e) ((h (inr a)).going _ e)
      go w (err a, v) e = left _ ((h (inl a)).same_db _ e) ((h (inl a)).going _ e)
      go w (panic, v) e = subst T (sym e) t

  pub Splits-if :
      (b : Bool) {m n : Page S A}
      → (b ≡ true → Splits s P T m)
      → (b ≡ false → Splits s P T n)
      → Splits s P T (if b then m else n)
  Splits-if true h k = h refl
  Splits-if false h k = k refl

  pub Splits->>= :
      {B : Type 0} {m : Page S A} {f : A → Page S B}
      → Splits s P T m
      → ((a : A) → P a → Ends s T (f a))
      → Ends s T (m >>= f)
  unfolding ◌>>=◌
  Splits->>= {B} {m} {f} h k = record { ended = λ w e. go (m w) (h.splits w e) }
    where
      go :
          (x : Flow A × World S)
          → After (λ a v. P a × (v.db ≡ s)) (λ v. T v.db) x
          → T (go_on {B = B} x f).1.db
      go (next a, v) (p, e) = (k a p).ended v e
      go (stop, v) t = t
      go (crash, v) t = t
