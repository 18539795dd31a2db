-- ===== src/Web/Leads.antt =====
-- Parts of a handler that change the database and go on.
use mathlib.Core.Path.{subst}
use sgtm.Common.{Bool, true, false, if◌then◌else◌, ◌⊎◌, inl, inr, ◌≡◌, refl, sym, ap}
use sgtm.Db.{Error, Result, ok, err, panic, Action}
use sgtm.Web.Handler.{World, Flow, next, stop, crash, Page, go_on, ◌>>=◌, act, answer, pure}
use sgtm.Web.Hoare.{After}
use sgtm.Web.Finds.{Finds, Going}
use sgtm.Web.Ends.{Ends}

-- From the database `s` the part ends the handler with a database that meets `T`, or goes on with
-- a value and a database that meet `Q`.
pub record Leads {S A : Type 0} (s : S) (Q : A → S → Type 0) (T : S → Type 0) (m : Page S A)
    : Type 0 where
  pub leads : (w : World S) → w.db ≡ s → After (λ a v. Q a v.db) (λ v. T v.db) (m w)

module _ {S A : Type 0} {s : S} {Q : A → S → Type 0} {T : S → Type 0} where
  pub Leads-pure : (a : A) → Q a s → Leads s Q T (pure a)
  unfolding pure
  Leads-pure a q = record { leads = λ w e. subst (Q a) (sym e) q }

  -- A part that only reads comes first.
  pub Leads-Finds :
      {B : Type 0} {P : B → Type 0} {m : Page S B} {f : B → Page S A}
      → Finds s P m
      → T s
      → ((b : B) → P b → Leads s Q T (f b))
      → Leads s Q T (m >>= f)
  unfolding ◌>>=◌
  Leads-Finds {B} {P} {m} {f} h t k = record {
    leads = λ w e. go (m w) (h.same_db w e) (h.going w e);
  }
    where
      go :
          (x : Flow B × World S)
          → x.1.db ≡ s
          → Going P x
          → After (λ a v. Q a v.db) (λ v. T v.db) (go_on x f)
      go (next b, v) e p = (k b p).leads v e
      go (stop, v) e p = subst T (sym e) t
      go (crash, v) e p = subst T (sym e) t

  -- A change comes first.
  pub Leads-act :
      {B : Type 0} (m : Action S B) {f : Error ⊎ B → Page S A}
      → T (m s).1
      → ((x : Error ⊎ B) → Leads (m s).1 Q T (f x))
      → Leads s Q T (act m >>= f)
  unfolding ◌>>=◌ act
  Leads-act {B} m {f} t h = record { leads = λ w e. go w (m w.db) (ap (λ (z : S). (m z).1) e) }
    where
      go :
          (w : World S) (x : Result B × S)
          → x.1 ≡ (m s).1
          → After (λ a v. Q a v.db) (λ v. T v.db) (go_on (answer w x.0 x.1) f)
      go w (ok a, v) e = (h (inr a)).leads (record w { db = v }) e
      go w (err a, v) e = (h (inl a)).leads (record w { db = v }) e
      go w (panic, v) e = subst T (sym e) t

  pub Leads-if :
      (b : Bool) {m n : Page S A}
      → (b ≡ true → Leads s Q T m)
      → (b ≡ false → Leads s Q T n)
      → Leads s Q T (if b then m else n)
  Leads-if true h k = h refl
  Leads-if false h k = k refl

  pub Ends-Leads :
      {B : Type 0} {m : Page S A} {f : A → Page S B}
      → Leads s Q T m
      → ((a : A) (v : S) → Q a v → Ends v T (f a))
      → Ends s T (m >>= f)
  unfolding ◌>>=◌
  Ends-Leads {B} {m} {f} h k = record { ended = λ w e. go (m w) (h.leads w e) }
    where
      go :
          (x : Flow A × World S)
          → After (λ a v. Q a v.db) (λ v. T v.db) x
          → T (go_on {B = B} x f).1.db
      go (next a, v) q = (k a v.db q).ended v refl
      go (stop, v) t = t
      go (crash, v) t = t

-- One change, and what follows it.
pub Ends-act->>= :
    {S A B : Type 0} {s : S} {T : S → Type 0} (m : Action S A) {f : Error ⊎ A → Page S B}
    → T (m s).1
    → ((x : Error ⊎ A) → Ends (m s).1 T (f x))
    → Ends s T (act m >>= f)
unfolding ◌>>=◌ act
Ends-act->>= {S} {A} {B} {s} {T} m {f} t h = record {
  ended = λ w e. go w (m w.db) (ap (λ (z : S). (m z).1) e);
}
  where
    go :
        (w : World S) (x : Result A × S)
        → x.1 ≡ (m s).1
        → T (go_on {B = B} (answer w x.0 x.1) f).1.db
    go w (ok a, v) e = (h (inr a)).ended (record w { db = v }) e
    go w (err a, v) e = (h (inl a)).ended (record w { db = v }) e
    go w (panic, v) e = subst T (sym e) t
