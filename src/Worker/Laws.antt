-- ===== src/Worker/Laws.antt =====
-- What a round of the worker makes of the tracks.
use mathlib.Core.Path.{subst}
use sgtm.Common.{
  arith, ℕ, zero, suc, ◌+◌, ◌≡◌, ◌≢◌, refl, ap, ◌∙◌, ◌⊎◌, inl, inr, Bool, true, false, ◌&&◌, String,
  List, [], ◌∷◌, ◌++◌, length, str_eq, eq_iff, sym,
}
use sgtm.Common.Int.{ℤ, pos, ltb_ℤ}
use sgtm.Pb.{Post, kind_number}
use Prim.Native.Nat.{compare}
use text.Mathlib.Text.{is_eq}
use sgtm.Db.{Gorm, Error, Result, ok, err, panic, IsFailure, error_text, conds_hold, continue}
use sgtm.Db.Laws.{Tables, IsGorm, SameRows, SameRows-refl}
use sgtm.Worker.Migrations.{Migration}
use sgtm.Worker.Loop.{outdated_query, noted, migrate, process_entries, processing_loop, wrap}

-- The entry behind `k` migrations that went well, from the version `v` on.
abbrev pub versioned : ℕ → ℕ → Post → Post
versioned zero v p = p
versioned (suc k) v p = record p { processing_version = pos (v + k) }

abbrev pub with_error : Error → Post → Post
with_error e p = record p { processing_error = error_text e }

versioned_step :
    (k v : ℕ) (p : Post)
    → versioned k (v + 1) (record p { processing_version = pos v }) ≡ versioned (suc k) v p
versioned_step zero v p = ap (λ (n : ℕ). record p { processing_version = pos n }) (omega arith)
versioned_step (suc k) v p = ap (λ (n : ℕ). record p { processing_version = pos n }) (omega arith)

module _ {S : Type 0} where
  -- Migrations that all went well, from a version and a state on, each on the entry with the version
  -- of the one before it and at the state that this one left, and the state that the last left.
  abbrev pub AllWell : List (Migration S) → ℕ → Post → S → S → Type 0
  AllWell [] v p s u = s ≡ u
  AllWell (m ∷ ms) v p s u =
      (w : S) × (m p s ≡ (ok tt, w))
      × AllWell ms (v + 1) (record p { processing_version = pos v }) w u

  -- The first migration that did not go well, with `k` before it: those did, and it gave this
  -- result, at the entry and the state that they left.
  pub record StopsAt (ms : List (Migration S)) (v : ℕ) (p : Post) (s : S) (k : ℕ)
      (r : Result (Unit {0})) (w : S) : Type 0 where
    pub done : List (Migration S)
    pub m : Migration S
    pub rest : List (Migration S)
    pub before : S
    pub order : ms ≡ done ++ m ∷ rest
    pub count : length done ≡ k
    pub well : AllWell done v p s before
    pub stops : m (versioned k v p) before ≡ (r, w)

  -- The entry and the state behind some migrations. An error is noted in the entry, and never
  -- returned.
  abbrev pub Outcome : List (Migration S) → ℕ → Post → S → Result Post × S → Type 0
  Outcome ms v p s (ok q, w) =
      (AllWell ms v p s w × (q ≡ versioned (length ms) v p))
      ⊎ ((k : ℕ) × (e : Error) × StopsAt ms v p s k (err e) w
          × (q ≡ with_error e (versioned k v p)))
  Outcome ms v p s (err e, w) = ⊥
  Outcome ms v p s (panic, w) = (k : ℕ) × StopsAt ms v p s k panic w

  -- One migration more, in front.
  module _ (m : Migration S) (ms : List (Migration S)) (v : ℕ) (p : Post) (s u : S)
      (went : m p s ≡ (ok tt, u)) where
    abbrev next : Post
    next = record p { processing_version = pos v }

    StopsAt-suc :
        (k : ℕ) (r : Result (Unit {0})) (w : S)
        → StopsAt ms (v + 1) next u k r w
        → StopsAt (m ∷ ms) v p s (suc k) r w
    StopsAt-suc k r w x = record {
      done = m ∷ x.done;
      m = x.m;
      rest = x.rest;
      before = x.before;
      order = ap (λ ns. m ∷ ns) x.order;
      count = ap suc x.count;
      well = (u, went, x.well);
      stops = subst (λ (q : Post). x.m q x.before ≡ (r, w)) (versioned_step k v p) x.stops;
    }

    Outcome-suc : (x : Result Post × S) → Outcome ms (v + 1) next u x → Outcome (m ∷ ms) v p s x
    Outcome-suc (ok q, w) (inl (well, e)) =
        inl ((u, went, well), e ∙ versioned_step (length ms) v p)
    Outcome-suc (ok q, w) (inr (k, f, x, e)) =
        inr (suc k, f, StopsAt-suc k (err f) w x, e ∙ ap (with_error f) (versioned_step k v p))
    Outcome-suc (err e, w) h = h
    Outcome-suc (panic, w) (k, x) = (suc k, StopsAt-suc k panic w x)

  first_stops :
      (m : Migration S) (ms : List (Migration S)) (v : ℕ) (p : Post) (s w : S)
      (r : Result (Unit {0}))
      → m p s ≡ (r, w)
      → StopsAt (m ∷ ms) v p s 0 r w
  first_stops m ms v p s w r e = record {
    done = [];
    m = m;
    rest = ms;
    before = s;
    order = refl;
    count = refl;
    well = refl;
    stops = e;
  }

  -- The migrations of an entry run one after the other, each at the state that the one before it
  -- left and on the entry with the version of that one. If all go well, the result is the entry with
  -- the version of the last (as it was, if there is none). If one returns an error, those behind it
  -- do not run, and the result is the entry with the version of the one before it (the entry's own
  -- before the first) and with the text of this error. If one panics, this is the result. An error is
  -- never the result. The state is what the last one that ran left.
  pub migrate-Outcome :
      (ms : List (Migration S)) (v : ℕ) (p : Post) (s : S) → Outcome ms v p s (migrate ms v p s)
  unfolding migrate noted
  migrate-Outcome [] v p s = inl (refl, refl)
  migrate-Outcome (m ∷ ms) v p s =
      noted_outcome (λ u. migrate-Outcome ms (v + 1) (record p { processing_version = pos v }) u)
        (m p s).0 (m p s).1 refl
    where
      noted_outcome :
          ((u : S)
            → Outcome ms
                (v + 1)
                (record p { processing_version = pos v })
                u
                (migrate ms (v + 1) (record p { processing_version = pos v }) u))
          → (r : Result (Unit {0})) (u : S) → m p s ≡ (r, u)
          → Outcome (m ∷ ms) v p s (noted r v p (λ q. migrate ms (v + 1) q) u)
      noted_outcome h (ok done) u e = Outcome-suc m ms v p s u e _ (h u)
      noted_outcome h (err f) u e = inr (0, f, first_stops m ms v p s u (err f) e, refl)
      noted_outcome h panic u e = (0, first_stops m ms v p s u panic e)

  -- Some migration returns this error, for some entry.
  abbrev pub Raises : List (Migration S) → Error → Type 0
  Raises [] e = ⊥
  Raises (m ∷ ms) e = ((p : Post) × (s : S) × ((m p s).0 ≡ err e)) ⊎ Raises ms e

  pub StopsAt-Raises :
      (ms : List (Migration S)) (v : ℕ) (p : Post) (s : S) (k : ℕ) (e : Error) (w : S)
      → StopsAt ms v p s k (err e) w
      → Raises ms e
  StopsAt-Raises ms v p s k e w x =
      subst (λ ns. Raises ns e) (sym x.order)
        (among x.done (versioned k v p, x.before, ap (λ y. y.0) x.stops))
    where
      among :
          (done : List (Migration S))
          → (q : Post) × (u : S) × ((x.m q u).0 ≡ err e)
          → Raises (done ++ x.m ∷ x.rest) e
      among [] h = inl h
      among (n ∷ done) h = inr (among done h)

-- The next round's query leaves this entry out.
abbrev pub IsSettled : ℕ → Post → Type 0
IsSettled n q = conds_hold (outdated_query n).conds q ≡ false

nothing_below : (b c d e : Bool) → e ≡ false → b && c && (d && (e && true)) ≡ false
nothing_below b c d e h = ground arith

no_error_set : (b c d e : Bool) → d ≡ false → b && c && (d && (e && true)) ≡ false
no_error_set b c d e h = ground arith

pub IsSettled-version : (n : ℕ) (q : Post) → q.processing_version ≡ pos n → IsSettled n q
unfolding outdated_query
IsSettled-version n q h =
    let same : ltb_ℤ q.processing_version (pos n) ≡ ltb_ℤ (pos n) (pos n) =
      ap (λ (v : ℤ). ltb_ℤ v (pos n)) h in
    let least : ltb_ℤ (pos n) (pos n) ≡ false = ground arith in
    nothing_below (is_eq (compare (kind_number q.kind) 1)) true (str_eq q.processing_error "")
      (ltb_ℤ q.processing_version (pos n)) (same ∙ least)

pub IsSettled-error : (n : ℕ) (q : Post) → q.processing_error ≢ "" → IsSettled n q
unfolding outdated_query
IsSettled-error n q h =
    let unequal : str_eq q.processing_error "" ≡ false =
      ground (arith, eq_iff q.processing_error "") in
    no_error_set (is_eq (compare (kind_number q.kind) 1)) true (str_eq q.processing_error "")
      (ltb_ℤ q.processing_version (pos n)) unequal

module _ {S : Type 0} (t : Tables S) (g : Gorm S) (law : IsGorm t g) where
  failed_again :
      {A : Type 0} (prefix : String) (x : Result A) → IsFailure (wrap g prefix x) → IsFailure x
  failed_again prefix (ok a) h = h
  failed_again prefix (err e) h = tt
  failed_again prefix panic h = tt

  -- Over a database that meets `IsGorm`, a round of the worker that fails, at the search, in an
  -- entry or at the commit, leaves the rows as they were: no entry of the round is changed.
  pub processing_loop_fails :
      (ms : List (Migration S)) (s : S)
      → IsFailure (processing_loop g ms s).0
      → SameRows t s (processing_loop g ms s).1
  unfolding processing_loop
  processing_loop_fails ms s h = go (wrap g _ (g.find_posts (outdated_query (length ms)) s)) h
    where
      rest : List Post → S → Result (Unit {0}) × S
      rest ps s' =
          let (r, s'') = g.transaction (Unit {0}) (process_entries g ms ps) s' in
          (wrap g "failed to run migration" r, s'')

      go :
          (x : Result (List Post))
          → IsFailure (continue (x, s) rest).0
          → SameRows t s (continue (x, s) rest).1
      go (ok ps) k = law.transaction_rollback (Unit {0}) _ s (failed_again _ _ k)
      go (err e) k = SameRows-refl t s
      go panic k = SameRows-refl t s
