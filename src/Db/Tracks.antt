-- ===== src/Db/Tracks.antt =====
-- No uploaded file and no linked track is stored twice: the columns that say what a post plays.
use mathlib.Core.Path.{subst}
use sgtm.Common.{
  ℕ, ◌≡◌, ◌≢◌, sym, ap, ◌⊎◌, inl, inr, false, String, List, [], ◌∷◌, ◌++◌, map, All, arith, eq_iff,
}
use sgtm.Common.Int.{pos}
use sgtm.Common.Preorder.{IsPreorder}
use sgtm.Pb.{Post}
use sgtm.Db.Outcome.{Result, ok, err, panic, record_not_found}
use sgtm.Db.Query.{PostCond, PostField, fields, conds_hold}
use sgtm.Db.Driver.{Gorm}
use sgtm.Db.Laws.{Tables, IsGorm, SameRows}
use sgtm.Db.Respects.{Preserves, transaction-respects}
use sgtm.Db.Rows.{PostKey, post_key, post_keys, IsPlain, KeepsKeys, All-append}

-- Two posts play different things, where they play something.
abbrev pub Distinct : PostKey → PostKey → Type 0
Distinct k l =
    ((l.ipfs_cid ≡ "") ⊎ (k.ipfs_cid ≢ l.ipfs_cid))
    × ((l.soundcloud_id ≡ 0) ⊎ (k.soundcloud_id ≢ l.soundcloud_id))

-- Every post differs from the posts behind it.
abbrev pub Unique : List PostKey → Type 0
Unique [] = Unit
Unique (k ∷ ks) = All (Distinct k) ks × Unique ks

abbrev pub HasId : PostKey → Type 0
HasId k = k.id ≢ pos 0

module _ (new : PostKey) where
  All-Distinct :
      (k : PostKey) (ks : List PostKey)
      → All (Distinct k) ks
      → Distinct k new
      → All (Distinct k) (ks ++ new ∷ [])
  All-Distinct k ks h d = All-append (Distinct k) ks (new ∷ []) h (d, tt)

  pub Unique-append :
      (ks : List PostKey) → Unique ks → All (λ k. Distinct k new) ks → Unique (ks ++ new ∷ [])
  Unique-append [] h d = (tt, tt)
  Unique-append (k ∷ ks) h d = (All-Distinct k ks h.0 d.0, Unique-append ks h.1 d.1)

-- The conditions of the searches for a content id and for a SoundCloud id.
abbrev pub cid_conds : String → List PostCond
cid_conds cid = fields (PostField.ipfs_cid cid ∷ []) ∷ []

abbrev pub scid_conds : ℕ → List PostCond
scid_conds scid = fields (PostField.soundcloud_id scid ∷ []) ∷ []

-- A search that does not fail for another reason than that there is no such row.
abbrev pub Answers : Result Post → Type 0
Answers (ok p) = Unit
Answers (err e) = e ≡ record_not_found
Answers panic = Unit

-- At this state of the database, no search for a content id or a SoundCloud id fails so.
pub record SearchesWell {S : Type 0} (g : Gorm S) (s : S) : Type 0 where
  pub cid : (cid : String) → Answers (g.first_post (cid_conds cid) s)
  pub scid : (scid : ℕ) → Answers (g.first_post (scid_conds scid) s)

-- A row that a search for a content id, or for a SoundCloud id, leaves out.
pub other_cid : (cid : String) (p : Post) → conds_hold (cid_conds cid) p ≡ false → p.ipfs_cid ≢ cid
other_cid cid p h same = let found = (eq_iff p.ipfs_cid cid).1 same in ground (arith, h, found)

pub other_scid :
    (scid : ℕ) (p : Post) → conds_hold (scid_conds scid) p ≡ false → p.soundcloud_id ≢ scid
other_scid scid p h same = ground arith

module _ {S : Type 0} (t : Tables S) where
  -- Every post has an id, and none plays what another plays.
  pub record TracksOnce (s : S) : Type 0 where
    pub ids : All HasId (post_keys t s)
    pub unique : Unique (post_keys t s)

  abbrev pub KeepsOnce : S → S → Type 0
  KeepsOnce s s' = TracksOnce s → TracksOnce s'

  pub KeepsOnce-IsPreorder : IsPreorder KeepsOnce
  KeepsOnce-IsPreorder = record { same = λ s h. h; trans = λ s u v f g h. g (f h) }

  pub KeepsOnce-same : (s s' : S) → post_keys t s' ≡ post_keys t s → KeepsOnce s s'
  KeepsOnce-same s s' e h = record {
    ids = subst (All HasId) (sym e) h.ids;
    unique = subst Unique (sym e) h.unique;
  }

  pub KeepsOnce-SameRows : (s s' : S) → SameRows t s s' → KeepsOnce s s'
  KeepsOnce-SameRows s s' h = KeepsOnce-same s s' (ap (map post_key) h.posts)

  -- One row more, or none.
  KeepsOnce-one :
      (s s' : S) (new : PostKey)
      → HasId new
      → All (λ k. Distinct k new) (post_keys t s)
      → (post_keys t s' ≡ post_keys t s) ⊎ (post_keys t s' ≡ post_keys t s ++ new ∷ [])
      → KeepsOnce s s'
  KeepsOnce-one s s' new i d (inl e) h = KeepsOnce-same s s' e h
  KeepsOnce-one s s' new i d (inr e) h = record {
    ids = subst (All HasId) (sym e) (All-append HasId _ _ h.ids (i, tt));
    unique = subst Unique (sym e) (Unique-append new _ h.unique d);
  }

  -- What the program relies on: a search for a post gives a stored row, it gives gorm's "record not
  -- found" only where no row meets the conditions, and no drawn id is 0.
  pub record FindsTracks (g : Gorm S) : Type 1 where
    pub first_post_stored :
        (cs : List PostCond) (s : S) (p : Post) (P : PostKey → Type 0)
        → g.first_post cs s ≡ ok p
        → All P (post_keys t s)
        → P (post_key p)
    pub first_post_none :
        (cs : List PostCond) (s : S)
        → g.first_post cs s ≡ err record_not_found
        → All (λ p. conds_hold cs p ≡ false) (t.posts s)
    pub generate_id : (s : S) → (g.generate s).0 ≢ pos 0

  module _ (g : Gorm S) (law : IsGorm t g) (keeps : KeepsKeys t g) (finds : FindsTracks g) where
    -- A new post that plays nothing that a stored one plays.
    pub add-KeepsOnce :
        (p : Post) (s : S)
        → (TracksOnce s → All (λ k. Distinct k (post_key p)) (post_keys t s))
        → let (i, s') = g.generate s in KeepsOnce s (g.insert_post (record p { id = i }) s').1
    add-KeepsOnce p s d h =
        let (i, s') = g.generate s in
        let same : post_keys t s' ≡ post_keys t s = ap (map post_key) (law.generate_rows s).posts in
        let new = record p { id = i } in
        KeepsOnce-one s' (g.insert_post new s').1 (post_key new) (finds.generate_id s)
          (subst (All (λ k. Distinct k (post_key p))) (sym same) (d h)) (keeps.insert_post new s').0
          (KeepsOnce-same s s' same h)

    plain-Distinct :
        (p : Post) (ks : List PostKey) → IsPlain p → All (λ k. Distinct k (post_key p)) ks
    plain-Distinct p [] h = tt
    plain-Distinct p (k ∷ ks) h = ((inl h.0, inl h.1), plain-Distinct p ks h)

    pub KeepsOnce-Preserves : Preserves IsPlain KeepsOnce g
    KeepsOnce-Preserves = record {
      generate = λ s. KeepsOnce-SameRows s _ (law.generate_rows s);
      insert_user = λ u s h. KeepsOnce-same s _ (keeps.insert_user u s).1;
      add_post = λ p s h. add-KeepsOnce p s (λ once. plain-Distinct p (post_keys t s) h);
      clear_relationships_as_source =
          λ p s. KeepsOnce-same s _ (keeps.clear_relationships_as_source p s).posts;
      clear_relationships_as_target =
          λ p s. KeepsOnce-same s _ (keeps.clear_relationships_as_target p s).posts;
      append_relationship_as_source =
          λ p r s. KeepsOnce-same s _ (keeps.append_relationship_as_source p r s).posts;
      transaction =
          λ A m s h. transaction-respects KeepsOnce-IsPreorder t g law KeepsOnce-SameRows m s h;
    }
