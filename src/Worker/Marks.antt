-- ===== src/Worker/Marks.antt =====
-- What the migrations of an entry, and the saving of its state, make of one row.
use mathlib.Core.Path.{subst}
use sgtm.Common.{
  ℕ, zero, suc, ◌≡◌, ◌≢◌, refl, sym, ap, ◌∙◌, ◌⊎◌, inl, inr, Bool, true, false, List, [], ◌∷◌, map,
  length, All, if◌then◌else◌, arith,
}
use sgtm.Common.Int.{ℤ, pos, int_eq, int_eq_iff}
use sgtm.Pb.{Post}
use sgtm.Db.{Error, ok, PostSet, conds_hold, error_text}
use sgtm.Db.Writes.{apply_sets, written, HasRow}
use sgtm.Worker.Migrations.{Migration}
use sgtm.Worker.Loop.{outdated_query}
use sgtm.Worker.Laws.{
  Outcome, Raises, StopsAt-Raises, versioned, IsSettled, IsSettled-version, IsSettled-error,
}

-- A row that is settled, or still to be processed.
abbrev pub IsLeft : ℕ → List Post → Post → Type 0
IsLeft n ps row = IsSettled n row ⊎ HasRow row.id ps

pub All-rows :
    (P Q : Post → Type 0) (f : Post → Post) (rows : List Post)
    → ((row : Post) → P row → Q (f row))
    → All P rows
    → All Q (map f rows)
All-rows P Q f [] h k = tt
All-rows P Q f (row ∷ rows) h k = (h row k.0, All-rows P Q f rows h k.1)

-- New values of columns that do not say whether a row is settled, whenever they are written.
abbrev pub IsHarmless : List PostSet → Type 0
IsHarmless sets =
    (n : ℕ) (now : ℤ) (row : Post)
    → (conds_hold (outdated_query n).conds (written sets now row)
        ≡ conds_hold (outdated_query n).conds row)
      × ((written sets now row).id ≡ row.id)

pub written-IsLeft :
    (n : ℕ) (ps : List Post) (sets : List PostSet) (now : ℤ) (b : Bool) (row : Post)
    → IsHarmless sets
    → IsLeft n ps row
    → IsLeft n ps (if b then written sets now row else row)
written-IsLeft n ps sets now false row h k = k
written-IsLeft n ps sets now true row h (inl done) = inl ((h n now row).0 ∙ done)
written-IsLeft n ps sets now true row h (inr there) =
    inr (subst (λ (i : ℤ). HasRow i ps) (sym (h n now row).1) there)

-- An entry that its migrations have marked: with the last version, or with an error.
abbrev pub IsMarked : ℕ → Post → Type 0
IsMarked n q = (q.processing_version ≡ pos n) ⊎ (q.processing_error ≢ "")

versioned-id : (k v : ℕ) (p : Post) → (versioned k v p).id ≡ p.id
versioned-id zero v p = refl
versioned-id (suc k) v p = refl

pub Outcome-IsMarked :
    {S : Type 0} (m : Migration S) (ms : List (Migration S)) (p q : Post) (s w : S)
    → ((e : Error) → Raises (m ∷ ms) e → error_text e ≢ "")
    → Outcome (m ∷ ms) 1 p s (ok q, w)
    → IsMarked (suc (length ms)) q × (q.id ≡ p.id)
Outcome-IsMarked m ms p q s w texts (inl (well, h)) = (
  inl (ap (λ (x : Post). x.processing_version) h ∙ ap pos (omega arith)),
  ap (λ (x : Post). x.id) h,
)
Outcome-IsMarked m ms p q s w texts (inr (k, e, x, h)) = (
  inr (λ empty.
      texts e (StopsAt-Raises (m ∷ ms) 1 p s k e w x)
        (sym (ap (λ (y : Post). y.processing_error) h) ∙ empty)),
  ap (λ (y : Post). y.id) h ∙ versioned-id k 1 p,
)

-- A row that takes over the state of a marked entry is settled; the others wait for the rest.
pub marked-IsLeft :
    (n : ℕ) (p q : Post) (ps : List Post) (now : ℤ) (b : Bool) (row : Post)
    → int_eq row.id q.id ≡ b
    → q.id ≡ p.id
    → IsMarked n q
    → IsLeft n (p ∷ ps) row
    → IsLeft n ps (
        if b
        then written
            (PostSet.processing_version q.processing_version
              ∷ PostSet.processing_error q.processing_error
              ∷ [])
            now
            row
        else row)
unfolding apply_sets
marked-IsLeft n p q ps now true row e same (inl v) left = inl (IsSettled-version n _ v)
marked-IsLeft n p q ps now true row e same (inr x) left = inl (IsSettled-error n _ x)
marked-IsLeft n p q ps now false row e same marked (inl done) = inl done
marked-IsLeft n p q ps now false row e same marked (inr (inl here)) =
    absurd (ground (arith, e, int_eq_iff row.id q.id, same, here))
marked-IsLeft n p q ps now false row e same marked (inr (inr later)) = inr later
