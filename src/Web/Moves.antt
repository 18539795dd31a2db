-- ===== src/Web/Moves.antt =====
-- Handlers under a preorder of the databases: what every call of the store respects, every handler
-- that is put together of such calls respects, however it ends.
use mathlib.Core.Path.{subst}
use sgtm.Common.{sym, Bool, true, false, if◌then◌else◌}
use sgtm.Common.Preorder.{IsPreorder}
use sgtm.Db.{Result, ok, err, panic, Action}
use sgtm.Web.Handler.{World, Flow, next, stop, crash, Page, go_on, ◌>>=◌, ◌>>◌, act, answer, pure}
use sgtm.Web.Hoare.{Reads, Reads-pure}

-- However the part ends, its last database is related to its first.
pub record Moves {S A : Type 0} (R : S → S → Type 0) (m : Page S A) : Type 0 where
  pub moves : (w : World S) → R w.db (m w).1.db

module _ {S : Type 0} {R : S → S → Type 0} ⦃order : IsPreorder R⦄ where
  pub Moves-Reads : {A : Type 0} (m : Page S A) → Reads m → Moves R m
  Moves-Reads m h = record { moves = λ w. subst (R w.db) (sym (h.same_db w)) (order.same w.db) }

  pub Moves-pure : {A : Type 0} (a : A) → Moves R (pure a)
  Moves-pure a = Moves-Reads _ (Reads-pure a)

  pub Moves->>= :
      {A B : Type 0} (m : Page S A) (f : A → Page S B)
      → Moves R m
      → ((a : A) → Moves R (f a))
      → Moves R (m >>= f)
  unfolding ◌>>=◌
  Moves->>= {A} {B} m f h k = record { moves = λ w. go w (m w) (h.moves w) }
    where
      go : (w : World S) (x : Flow A × World S) → R w.db x.1.db → R w.db (go_on {B = B} x f).1.db
      go w (next a, v) r = order.trans w.db v.db _ r ((k a).moves v)
      go w (stop, v) r = r
      go w (crash, v) r = r

  pub Moves->> :
      {A B : Type 0} (m : Page S A) (n : Page S B) → Moves R m → Moves R n → Moves R (m >> n)
  unfolding ◌>>◌
  Moves->> m n h k = Moves->>= m (λ _. n) h (λ _. k)

  pub Moves-act : {A : Type 0} (m : Action S A) → ((s : S) → R s (m s).1) → Moves R (act m)
  unfolding act
  Moves-act {A} m h = record { moves = λ w. go w (m w.db) (h w.db) }
    where
      go : (w : World S) (x : Result A × S) → R w.db x.1 → R w.db (answer w x.0 x.1).1.db
      go w (ok a, s) r = r
      go w (err e, s) r = r
      go w (panic, s) r = r

  pub Moves-if :
      {A : Type 0} (b : Bool) (m n : Page S A)
      → Moves R m
      → Moves R n
      → Moves R (if b then m else n)
  Moves-if true m n h k = h
  Moves-if false m n h k = k

pub ruleset moves = (Moves-pure, Moves->>=, Moves->>, Moves-act, Moves-if)
