-- ===== src/Pages/NewPost/Laws.antt =====
-- What a new post is.
use mathlib.Core.Path.{subst}
use sgtm.Common.{sym, ℕ, ◌≡◌, refl, ◌⊎◌, inl, inr, Option, none, some, str_eq, eq_iff, String, true}
use sgtm.Common.Int.{is_zero}
use sgtm.Pb.{Post, User, track, public, ipfs, sound_cloud}
use sgtm.Db.{Error, Result, ok, err, panic}
use sgtm.Service.{Service, TemplateData, ParsedUrl, SoundCloudTrack}
use sgtm.Service.Reads.{err_render_html-Reads, render_page-Reads}
use sgtm.Service.Laws.{begin_page-KnowsVisitor, Identity}
use sgtm.Pages.Access.{user_or_home-some, KnowsVisitor-Identity}
use sgtm.Pages.NewPost.{
  Draft, refused, accepted, uploaded_post, linked_post, new_upload, unless_known, with_cid,
  from_upload, from_track, fetch_track, unless_linked, with_number, with_path, with_resolved,
  with_url, from_url, validate, save_new, new_page,
}
use sgtm.Pages.NewPost.TrackPath.{track_path}
use sgtm.Common.Decimal.{parse_uint}
use sgtm.Web.{Request, Upload, World}
use sgtm.Web.Hoare.{reads}
use sgtm.Web.Finds.{Finds, Finds->>=, Finds-pure, Finds-fault, Finds-if, Finds-ask, Answers}
use sgtm.Web.Ends.{Ends, Ends->>=, Ends-Reads, Ends-then, Ends-act, Ends-if}

-- A search that found no stored track.
abbrev pub NoTrack : Result Post → Type 0
NoTrack (ok p) = is_zero p.id ≡ true
NoTrack (err e) = Unit
NoTrack panic = ⊥

module _ {S : Type 0} (svc : Service S) (r : Request) (s : S) where
  -- Nothing stored plays what the post plays, as far as the search for it tells.
  abbrev pub IsFresh : Post → Type 0
  IsFresh p =
      (p.provider ≡ ipfs)
        × (p.visibility ≡ public)
        × (p.soundcloud_id ≡ 0)
        × NoTrack (svc.store.get_track_by_cid p.ipfs_cid s)
      ⊎ (p.provider ≡ sound_cloud)
        × (p.ipfs_cid ≡ "")
        × NoTrack (svc.store.get_track_by_scid p.soundcloud_id s)

  -- A track of `u` that is not stored yet.
  pub record IsNewTrack (u : User) (p : Post) : Type 0 where
    pub author : p.author_id ≡ u.id
    pub kind : p.kind ≡ track
    pub fresh : IsFresh p

  abbrev Acceptable : User → Draft → Type 0
  Acceptable u (refused d) = Unit
  Acceptable u (accepted p) = IsNewTrack u p

  module _ (d : TemplateData) (u : User) where
    new_upload-Acceptable :
        (cid : String) (file : Upload) (o : Option String)
        → NoTrack (svc.store.get_track_by_cid cid s)
        → Finds s (Acceptable u) (new_upload svc d u cid file o)
    unfolding new_upload uploaded_post
    new_upload-Acceptable cid file none h = Finds-fault _
    new_upload-Acceptable cid file (some mime) h =
        Finds-pure _ (record { author = refl; kind = refl; fresh = inl (refl, refl, refl, h) })

    unless_known-Acceptable :
        (cid : String) (file : Upload) (x : Error ⊎ Post)
        → Answers (svc.store.get_track_by_cid cid s) x
        → Finds s (Acceptable u) (unless_known svc d u cid file x)
    unfolding unless_known
    unless_known-Acceptable cid file (inl e) h =
        new_upload-Acceptable cid file file.content_type (subst NoTrack (sym h) tt)
    unless_known-Acceptable cid file (inr p) h =
        Finds-if (is_zero p.id)
          (λ z. new_upload-Acceptable cid file file.content_type (subst NoTrack (sym h) z))
          (λ _. Finds-pure _ tt)

    with_cid-Acceptable :
        (file : Upload) (x : Error ⊎ String) → Finds s (Acceptable u) (with_cid svc d u file x)
    unfolding with_cid
    with_cid-Acceptable file (inl e) = Finds-pure _ tt
    with_cid-Acceptable file (inr cid) =
        Finds->>= (Finds-ask (svc.store.get_track_by_cid cid)) (unless_known-Acceptable cid file)

    from_upload-Acceptable : (x : String ⊎ Upload) → Finds s (Acceptable u) (from_upload svc d u x)
    unfolding from_upload
    from_upload-Acceptable (inl text) = Finds-pure _ tt
    from_upload-Acceptable (inr file) = Finds->>= (Finds-ask _) (λ x _. with_cid-Acceptable file x)

    from_track-Acceptable :
        (scid : ℕ) (secret : String) (x : Error ⊎ SoundCloudTrack)
        → NoTrack (svc.store.get_track_by_scid scid s)
        → Finds s (Acceptable u) (from_track svc r d u scid secret x)
    unfolding from_track linked_post
    from_track-Acceptable scid secret (inl e) h = Finds-pure _ tt
    from_track-Acceptable scid secret (inr t) h =
        Finds-pure _ (record { author = refl; kind = refl; fresh = inr (refl, refl, h) })

    fetch_track-Acceptable :
        (scid : ℕ) (secret : String)
        → NoTrack (svc.store.get_track_by_scid scid s)
        → Finds s (Acceptable u) (fetch_track svc r d u scid secret)
    unfolding fetch_track
    fetch_track-Acceptable scid secret h =
        Finds->>= (Finds-ask _) (λ x _. from_track-Acceptable scid secret x h)

    unless_linked-Acceptable :
        (scid : ℕ) (secret : String) (x : Error ⊎ Post)
        → Answers (svc.store.get_track_by_scid scid s) x
        → Finds s (Acceptable u) (unless_linked svc r d u scid secret x)
    unfolding unless_linked
    unless_linked-Acceptable scid secret (inl e) h =
        fetch_track-Acceptable scid secret (subst NoTrack (sym h) tt)
    unless_linked-Acceptable scid secret (inr p) h =
        Finds-if (is_zero p.id) (λ z. fetch_track-Acceptable scid secret (subst NoTrack (sym h) z))
          (λ _. Finds-pure _ tt)

    with_number-Acceptable :
        (text secret : String) (o : Option ℕ)
        → Finds s (Acceptable u) (with_number svc r d u text secret o)
    unfolding with_number
    with_number-Acceptable text secret none = Finds-pure _ tt
    with_number-Acceptable text secret (some scid) =
        Finds->>= (Finds-ask (svc.store.get_track_by_scid scid))
          (unless_linked-Acceptable scid secret)

    with_path-Acceptable :
        (secret : String) (o : Option String)
        → Finds s (Acceptable u) (with_path svc r d u secret o)
    unfolding with_path
    with_path-Acceptable secret none = Finds-pure _ tt
    with_path-Acceptable secret (some text) = with_number-Acceptable text secret (parse_uint text)

    with_resolved-Acceptable :
        (x : Error ⊎ ParsedUrl) → Finds s (Acceptable u) (with_resolved svc r d u x)
    unfolding with_resolved
    with_resolved-Acceptable (inl e) = Finds-pure _ tt
    with_resolved-Acceptable (inr url) = with_path-Acceptable url.secret_token (track_path url.path)

    with_url-Acceptable : (x : Error ⊎ ParsedUrl) → Finds s (Acceptable u) (with_url svc r d u x)
    unfolding with_url
    with_url-Acceptable (inl e) = Finds-pure _ tt
    with_url-Acceptable (inr url) =
        Finds-if (str_eq url.host "soundcloud.com")
          (λ _. Finds->>= (Finds-ask _) (λ x _. with_resolved-Acceptable x)) (λ _. Finds-pure _ tt)

    pub validate-Acceptable : (o : Option String) → Finds s (Acceptable u) (validate svc r d u o)
    unfolding validate from_url
    validate-Acceptable (some text) = Finds-pure _ tt
    validate-Acceptable none =
        Finds-if (str_eq (r.form "url") "") (λ _. from_upload-Acceptable r.upload)
          (λ _. Finds->>= (Finds-ask _) (λ x _. with_url-Acceptable x))

  -- The database behind the request: as before, or with one new track of its sender.
  abbrev pub Added : S → Type 0
  Added s' =
      (s' ≡ s)
      ⊎ ((u : User) × (p : Post) × (r.method ≡ "POST")
          × Identity svc r s u
          × IsNewTrack u p
          × (s' ≡ (svc.store.create_post p s).1))

  save_new-Added :
      (u : User) (x : Draft)
      → r.method ≡ "POST"
      → Identity svc r s u
      → Acceptable u x
      → Ends s Added (save_new svc r x)
  unfolding save_new
  save_new-Added u (refused d) method identity h = Ends-Reads (search reads) (inl refl)
  save_new-Added u (accepted p) method identity h =
      Ends-act _ (inr (u, p, method, identity, h, refl))
        (λ x. search (reads, err_render_html-Reads) depth 9)

module _ {S : Type 0} where
  -- However a request for a new post ends, the database is as it was, or it is what one call of
  -- `CreatePost` made of it, and then the request is a POST, the author is the user whom the
  -- session's token names, and the post is a track that is not stored yet: either an uploaded
  -- file, which is public and has no SoundCloud id, for whose content id the search gave an error or a post with the id 0,
  -- or a SoundCloud track, which has no content id, for whose SoundCloud id it did.
  pub new_page-Added :
      (svc : Service S) (r : Request) (w : World S) → Added svc r w.db (new_page svc r w).1.db
  unfolding new_page
  new_page-Added svc r w =
      let h : Ends w.db (Added svc r w.db) (new_page svc r) =
        Ends->>= (begin_page-KnowsVisitor svc r w.db) (inl refl) λ d known.
          Ends->>= (user_or_home-some svc r w.db d.user) (inl refl) λ u is_u.
            Ends-then
              (Ends-if (str_eq r.method "POST")
                (λ e.
                  Ends->>= (validate-Acceptable svc r w.db d u r.form_error) (inl refl) λ x ok_x.
                    save_new-Added svc r w.db u x ((eq_iff r.method "POST").0 e)
                      (KnowsVisitor-Identity svc r w.db d u known is_u) ok_x)
                (λ _. Ends-Reads (search reads) (inl refl)))
              (λ d'. render_page-Reads svc r _ d') in
      h.ended w refl
