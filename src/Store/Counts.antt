-- ===== src/Store/Counts.antt =====
-- pkg/sgtmstore/store.go, the counts.
use sgtm.Common.{List, [], ◌∷◌}
use sgtm.Common.Int.{ℤ}
use sgtm.Pb.{track, draft, public, UploadsByWeek, PostByKind}
use sgtm.Db.{Gorm, Result, fields, PostField}

module _ {S : Type 0} (g : Gorm S) where
  unfoldable pub get_uploads_by_week : S → Result (List UploadsByWeek)
  get_uploads_by_week s = g.count_by_weekday (fields (PostField.kind track ∷ []) ∷ []) s

  unfoldable pub get_number_of_draft_posts : S → Result ℤ
  get_number_of_draft_posts s =
      g.count_posts (fields (PostField.kind track ∷ PostField.visibility draft ∷ []) ∷ []) s

  unfoldable pub get_number_of_users : S → Result ℤ
  get_number_of_users s = g.count_users s

  unfoldable pub get_number_of_posts_by_kind : S → Result (List PostByKind)
  get_number_of_posts_by_kind s = g.count_by_kind s

  unfoldable pub get_total_duration : S → Result ℤ
  get_total_duration s = g.sum_duration (fields (PostField.kind track ∷ []) ∷ []) s

  unfoldable pub get_calendar_heat_map : ℤ → S → Result (List ℤ)
  get_calendar_heat_map author_id s =
      g.pluck_sort_seconds
        (fields (
            PostField.author_id author_id ∷ PostField.kind track ∷ PostField.visibility public ∷ [])
          ∷ [])
        s
