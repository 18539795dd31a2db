-- ===== src/Worker/Migrations.antt =====
-- The migrations of a track (`setupMigrations`), in their order.
use sgtm.Common.{not, ◌||◌, List, [], ◌∷◌, if◌then◌else◌, str_eq}
use sgtm.Pb.{Post, sound_cloud, provider_eq}
use sgtm.Db.{Gorm, Action, pure, by_map, PostSet}

abbrev pub Migration : Type 0 → Type 0
Migration S = Post → Action S (Unit {0})

module _ {S : Type 0} (g : Gorm S) where
  -- migrate track.Genre to track.Tags
  unfoldable pub genre_to_tags : Migration S
  genre_to_tags p =
      if not (str_eq p.tags "") || str_eq p.genre ""
      then pure tt
      else g.update_post p (by_map (PostSet.tags p.genre ∷ PostSet.genre "" ∷ []))

  -- set SoundCloud provider_title
  unfoldable pub title_to_provider_title : Migration S
  title_to_provider_title p =
      if not (provider_eq p.provider sound_cloud) || not (str_eq p.provider_title "")
      then pure tt
      else g.update_post p (by_map (PostSet.provider_title p.title ∷ PostSet.title "" ∷ []))

  unfoldable pub track_migrations : List (Migration S)
  unfolding genre_to_tags title_to_provider_title
  track_migrations = genre_to_tags ∷ title_to_provider_title ∷ []
