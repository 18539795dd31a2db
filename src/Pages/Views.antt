-- ===== src/Pages/Views.antt =====
-- What the pages that note a view write.
use sgtm.Common.{◌≡◌, refl, ◌⊎◌, inl, inr}
use sgtm.Pb.{Post, Kind, view_home, view_open, view_profile}
use sgtm.Db.Rows.{IsPlain}
use sgtm.Service.{Service, TemplateData}
use sgtm.Service.Reads.{render_page-Reads, error_404_page-Reads}
use sgtm.Service.Laws.{KnowsVisitor, begin_page-KnowsVisitor}
use sgtm.Pages.Blocks.{track_view}
use sgtm.Pages.Home.{home_page, last_tracks, last_users}
use sgtm.Pages.OpenPage.{open_page, counts}
use sgtm.Pages.Profile.{profile_page, tracks_block, heatmap_block}
use sgtm.Pages.Moves.Views.{with_uploads-Reads, profile_or_fault-Reads}
use sgtm.Web.{Request}
use sgtm.Web.Hoare.{reads}
use sgtm.Web.Finds.{Finds-Reads}
use sgtm.Web.Ends.{Ends, Ends->>=, Ends-then, Ends-act}

module _ {S : Type 0} (svc : Service S) (r : Request) (s : S) where
  -- The view is the visitor's.
  pub record IsView (k : Kind) (p : Post) : Type 0 where
    pub data_of : TemplateData
    pub visitor : KnowsVisitor svc r s data_of
    pub author : p.author_id ≡ data_of.user_id
    pub kind : p.kind ≡ k
    pub plain : IsPlain p

  -- As before, or with one noted view.
  abbrev pub Viewed : Kind → S → Type 0
  Viewed k s' = (s' ≡ s) ⊎ ((p : Post) × IsView k p × (s' ≡ (svc.store.create_post p s).1))

  track_view-Viewed :
      (k : Kind) (p : Post) (d : TemplateData) → IsView k p → Ends s (Viewed k) (track_view svc p d)
  unfolding track_view
  track_view-Viewed k p d h = Ends-act _ (inr (p, h, refl)) (λ x. search reads)

  pub home_page-Viewed : Ends s (Viewed view_home) (home_page svc r)
  unfolding home_page last_tracks last_users
  home_page-Viewed = Ends->>= (begin_page-KnowsVisitor svc r s) (inl refl) λ d known.
      Ends-then
        (track_view-Viewed view_home _ _ (record {
          data_of = d;
          visitor = known;
          author = refl;
          kind = refl;
          plain = (refl, refl);
        }))
        λ d1. search (reads, render_page-Reads) depth 12

  pub open_page-Viewed : Ends s (Viewed view_open) (open_page svc r)
  unfolding open_page counts
  open_page-Viewed = Ends->>= (begin_page-KnowsVisitor svc r s) (inl refl) λ d known.
      Ends-then
        (track_view-Viewed view_open _ _ (record {
          data_of = d;
          visitor = known;
          author = refl;
          kind = refl;
          plain = (refl, refl);
        }))
        λ d1. search (reads, with_uploads-Reads, render_page-Reads) depth 24

  pub profile_page-Viewed : Ends s (Viewed view_profile) (profile_page svc r)
  unfolding profile_page tracks_block heatmap_block
  profile_page-Viewed = Ends->>= (begin_page-KnowsVisitor svc r s) (inl refl) λ d known.
      Ends->>= {P = λ _. Unit {0}} (Finds-Reads (search reads)) (inl refl) λ found _.
        Ends->>= {P = λ _. Unit {0}} (Finds-Reads (search (reads, error_404_page-Reads))) (inl refl)
          λ profile _.
            Ends->>= {P = λ _. Unit {0}} (Finds-Reads (profile_or_fault-Reads svc profile))
              (inl refl)
              λ u _.
                Ends-then
                  (track_view-Viewed view_profile _ _ (record {
                    data_of = d;
                    visitor = known;
                    author = refl;
                    kind = refl;
                    plain = (refl, refl);
                  }))
                  λ d1. search (reads, render_page-Reads) depth 12
