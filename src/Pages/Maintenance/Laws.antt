-- ===== src/Pages/Maintenance/Laws.antt =====
-- Who can have a post maintained.
use sgtm.Common.{[], ◌∷◌, ℕ, Bool, true, false, ◌≡◌, refl, ◌⊎◌, inl, inr, if◌then◌else◌, String}
use sgtm.Pb.{Post, User}
use sgtm.Service.{Service, TemplateData}
use sgtm.Service.Reads.{err_render_html-Reads, render_page-Reads, error_404_page-Reads}
use sgtm.Service.Laws.{begin_page-KnowsVisitor}
use sgtm.Pages.Access.{
  MayEdit, find_post-Found, user_or_home-some, check_author-Rights, KnowsVisitor-MayEdit,
}
use sgtm.Pages.Maintenance.{
  should_extract_bpm, should_detect_relationships, should_resync_sound_cloud, download_if,
  store_bpm, detect_relationships, return_to, maintainable, maintain, post_maintenance_page,
}
use sgtm.Pages.Blocks.{not_found}
use sgtm.Pages.Tempo.{extract_bpm}
use sgtm.Db.{ok, by_struct, PostSet}
use sgtm.Web.Leads.{Leads, Leads-pure, Leads-Finds, Leads-act, Leads-if, Ends-Leads}
use sgtm.Web.{Request, World, pure, ◌>>=◌}
use sgtm.Web.Hoare.{Reads, reads}
use sgtm.Web.Finds.{
  Finds, Finds->>=, Finds->>, Finds-then, Finds-pure, Finds-halt, Finds-Reads, Finds-ask,
  Finds-value_or, Answers-ok,
}
use sgtm.Web.Ends.{Ends, Ends->>=, Ends->>, Ends-weaken, Ends-Reads}

module _ {S : Type 0} (svc : Service S) (r : Request) (s : S) where
  -- Why a request may have changed something.
  pub record IsMaintenance (p : Post) : Type 0 where
    pub editor : User
    pub may : MayEdit svc r s editor p
    pub no_resync : should_resync_sound_cloud svc r ≡ false

  maintainable-MayEdit :
      Finds s (λ ready. (u : User) × MayEdit svc r s u ready.1) (maintainable svc r)
  unfolding maintainable
  maintainable-MayEdit = Finds->> (search (reads, error_404_page-Reads) depth 9) (
      Finds->>= (begin_page-KnowsVisitor svc r s) λ d known.
        Finds->>= (user_or_home-some svc r s d.user) λ u is_u.
          Finds->>= (find_post-Found svc r s) λ p found.
            Finds-then (check_author-Rights svc r s d u p p.author) λ _ rights.
              Finds-pure _ (u, KnowsVisitor-MayEdit svc r s d u p known is_u found rights))

  -- The post and the database behind the part that may store the tempo.
  abbrev pub Timed : Post → Post → S → Type 0
  Timed p q v =
      ((q ≡ p) × (v ≡ s))
      ⊎ ((path : String) × (bpm : ℕ) × (should_extract_bpm svc r ≡ true)
          × (extract_bpm svc.platform.tempo path ≡ ok bpm)
          × (q ≡ record p { bpm = bpm })
          × (v ≡ (svc.store.update_post q (by_struct (PostSet.bpm bpm ∷ [])) s).1))

  -- The database behind the part that may renew the relationships.
  abbrev pub Renewed : Post → S → S → Type 0
  Renewed q v s' =
      (s' ≡ v)
      ⊎ ((should_detect_relationships svc r ≡ true)
          × (s' ≡ (svc.store.check_and_update_post q v).1))

  abbrev pub Updated : Post → S → Type 0
  Updated p s' = (q : Post) × (v : S) × Timed p q v × Renewed q v s'

  -- The database behind the request: as before, unless a maintenance was due.
  abbrev pub Maintained : S → Type 0
  Maintained s' = (s' ≡ s) ⊎ ((p : Post) × IsMaintenance p × Updated p s')

  download_if-Reads : (b : Bool) (p : Post) → Reads (download_if svc b r p)
  unfolding download_if
  download_if-Reads false p = search reads
  download_if-Reads true p = search (reads, err_render_html-Reads) depth 9

  no_resync_here :
      Finds s
        (λ _. should_resync_sound_cloud svc r ≡ false)
        (if should_resync_sound_cloud svc r then not_found svc r else pure tt)
  no_resync_here = by_test (should_resync_sound_cloud svc r) refl
    where
      by_test :
          (b : Bool)
          → should_resync_sound_cloud svc r ≡ b
          → Finds s
              (λ _. should_resync_sound_cloud svc r ≡ false)
              (if b then not_found svc r else pure tt)
      by_test true e = Finds->> (error_404_page-Reads svc r) (Finds-halt _)
      by_test false e = Finds-pure tt e

  -- Behind the tempo, with the post that is at hand.
  timed : (p q : Post) (v : S) → Timed p q v → Updated p v
  timed p q v h = (q, v, h, inl refl)

  store_bpm-Timed :
      (p : Post) (path : String)
      → should_extract_bpm svc r ≡ true
      → Leads s (Timed p) (Updated p) (store_bpm svc r p path)
  unfolding store_bpm
  store_bpm-Timed p path asked =
      let unchanged = timed p p s (inl (refl, refl)) in
      Leads-Finds (Finds-ask _) unchanged λ x answered.
        Leads-Finds (Finds-value_or x (λ e. err_render_html-Reads svc r e 422)) unchanged
          λ bpm is_bpm.
            let stored : Timed p (record p { bpm = bpm }) _ =
              inr (path, bpm, asked, Answers-ok _ x bpm answered is_bpm, refl, refl) in
            Leads-act _ (timed p _ _ stored) λ y.
              Leads-Finds {P = λ _. Unit {0}} (Finds-Reads (search (reads, err_render_html-Reads)))
                (timed p _ _ stored) λ saved _. Leads-pure _ stored

  detect_relationships-Updated :
      (p q : Post) (v : S)
      → Timed p q v
      → should_detect_relationships svc r ≡ true
      → Leads v (λ _ s'. Updated p s') (Updated p) (detect_relationships svc r q)
  unfolding detect_relationships
  detect_relationships-Updated p q v h asked =
      let renewed : Updated p (svc.store.check_and_update_post q v).1 =
        (q, v, h, inr (asked, refl)) in
      Leads-act _ renewed λ x.
        Leads-Finds {P = λ _. Unit {0}} (Finds-Reads (search (reads, err_render_html-Reads)))
          renewed λ saved _. Leads-pure q renewed

  changes-Updated :
      (d : TemplateData) (p : Post) (path : String)
      → Ends s (Updated p) (
          (if should_extract_bpm svc r then store_bpm svc r p path else pure p) >>= λ p'.
          (if should_detect_relationships svc r then detect_relationships svc r p' else pure p')
          >>= λ p''. return_to svc r d p'')
  unfolding return_to
  changes-Updated d p path =
      Ends-Leads
        (Leads-if (should_extract_bpm svc r) (store_bpm-Timed p path)
          (λ _. Leads-pure p (inl (refl, refl))))
        λ p' v h.
          Ends-Leads
            (Leads-if (should_detect_relationships svc r) (detect_relationships-Updated p p' v h)
              (λ _. Leads-pure p' (timed p p' v h)))
            λ p'' s' made. Ends-Reads (search (reads, render_page-Reads) depth 9) made

  maintain-Maintained :
      (d : TemplateData) (p : Post) (u : User)
      → MayEdit svc r s u p
      → Ends s Maintained (maintain svc r (d, p))
  unfolding maintain
  maintain-Maintained d p u may =
      Ends->>= {P = λ _. Unit {0}} (Finds-Reads (download_if-Reads (should_extract_bpm svc r) p))
        (inl refl)
        λ path _. Ends->> no_resync_here (inl refl) λ _ plain.
          Ends-weaken (changes-Updated d p path)
            λ s' made. inr (p, record { editor = u; may = may; no_resync = plain }, made)

module _ {S : Type 0} where
  -- However a maintenance request ends, the database is as it was, or the user whom the session's
  -- token names is an admin by the stored role or the author of the post that the path names, the
  -- query does not ask for the synchronisation with SoundCloud, and two things may have been done
  -- to that post and nothing else: if the query asks for the tempo, `UpdatePost` with a tempo that
  -- was extracted from a file, and then, if it asks for the relationships, `CheckAndUpdatePost`.
  pub post_maintenance_page-Maintained :
      (svc : Service S) (r : Request) (w : World S)
      → Maintained svc r w.db (post_maintenance_page svc r w).1.db
  unfolding post_maintenance_page
  post_maintenance_page-Maintained svc r w =
      let h : Ends w.db (Maintained svc r w.db) (post_maintenance_page svc r) =
        Ends->>= (maintainable-MayEdit svc r w.db) (inl refl)
          (λ ready can. maintain-Maintained svc r w.db ready.0 ready.1 can.0 can.1) in
      h.ended w refl
