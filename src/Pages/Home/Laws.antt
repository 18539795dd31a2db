-- ===== src/Pages/Home/Laws.antt =====
-- Which tracks the home page shows.
use sgtm.Common.{arith, ℕ, ◌≤◌, ◌≡◌, ◌⊎◌, inl, inr, List, [], ◌∷◌, map, length, All, if◌then◌else◌}
use sgtm.Common.Int.{is_zero}
use sgtm.Pb.{Post, track, public}
use sgtm.Pb.PostHelpers
use sgtm.Db.{Error, ok}
use sgtm.Service.{Service, TemplateData}
use sgtm.Store.Listing.{IsListed, length-map}
use sgtm.Pages.Home.{track_limit, last_tracks, with_tracks}
use sgtm.Web.Finds.{Finds, Finds->>=, Finds-pure, Finds-ask, Answers}

-- A post that a visitor may see in a list.
pub record IsPublicTrack (p : Post) : Type 0 where
  pub kind : p.kind ≡ track
  pub visibility : p.visibility ≡ public

apply_defaults-IsPublicTrack :
    (decode : PostHelpers.AvatarDecoder) (p : Post)
    → IsListed p
    → IsPublicTrack (PostHelpers.apply_defaults decode p)
unfolding PostHelpers.apply_defaults
apply_defaults-IsPublicTrack decode p h = record {
  kind = ground (arith, h.kind);
  visibility = ground (arith, h.visibility);
}

map-IsPublicTrack :
    (decode : PostHelpers.AvatarDecoder) (ps : List Post)
    → All IsListed ps
    → All IsPublicTrack (map (PostHelpers.apply_defaults decode) ps)
map-IsPublicTrack decode [] h = tt
map-IsPublicTrack decode (p ∷ ps) (h, hs) =
    (apply_defaults-IsPublicTrack decode p h, map-IsPublicTrack decode ps hs)

module _ {S : Type 0} (svc : Service S) (s : S) where
  -- The tracks that the page got.
  pub record Shows (limit : ℕ) (d : TemplateData) : Type 0 where
    pub few : length d.home_last_tracks ≤ limit
    pub visible : All IsPublicTrack d.home_last_tracks

  -- If the store's list of posts, where it is found, holds no more posts than it is asked for, each
  -- a public track without its metadata and download link, then the home page shows at most ten
  -- tracks to a visitor with the id 0 and at most fifty to another, each a public track, and getting
  -- them leaves the database as it is.
  pub last_tracks-Shows :
      (d : TemplateData)
      → ((limit : ℕ) (ps : List Post)
          → svc.store.get_post_list limit s ≡ ok ps
          → All IsListed ps × (length ps ≤ limit))
      → Finds s (Shows (if is_zero d.user_id then 10 else 50)) (last_tracks svc d)
  unfolding last_tracks track_limit
  last_tracks-Shows d law =
      Finds->>= (Finds-ask (svc.store.get_post_list (track_limit svc d.user_id)))
        λ x h. Finds-pure _ (shown x h)
    where
      limit : ℕ
      limit = if is_zero d.user_id then 10 else 50

      shown :
          (x : Error ⊎ List Post)
          → Answers (svc.store.get_post_list limit s) x
          → Shows limit (with_tracks svc d x)
      shown (inl e) h = record { few = omega arith; visible = tt }
      shown (inr ps) h =
          let (listed, short) = law limit ps h in
          record {
            few = rw (length-map (PostHelpers.apply_defaults svc.platform.decode_avatar) ps) short;
            visible = map-IsPublicTrack svc.platform.decode_avatar ps listed;
          }
