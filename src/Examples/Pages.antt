-- ===== src/Examples/Pages.antt =====
-- The handlers, run for `alice`.
use sgtm.Common.{ℕ, length, ◌≤◌, if◌then◌else◌, arith, ◌≡◌, refl, none, List, [], ◌∷◌, All}
use sgtm.Common.Int.{pos, is_zero}
use sgtm.Pb.{UploadsByWeek}
use sgtm.Db.{ok}
use sgtm.Db.Memory.{tables, memory-IsGorm, memory}
use sgtm.Store.{new_store}
use sgtm.Store.Users.{get_user_by_slug}
use sgtm.Service.Laws.{KnowsVisitor, begin_page-KnowsVisitor}
use sgtm.Service.Errors.{begin_page}
use sgtm.Web.{crash}
use sgtm.Web.Finds.{Finds}
use sgtm.Pages.PostEdit.{post_edit_page}
use sgtm.Pages.PostEdit.Laws.{Edited, post_edit_page-Edited}
use sgtm.Pages.NewPost.{new_page}
use sgtm.Pages.NewPost.Laws.{Added, new_page-Added}
use sgtm.Pages.PostPage.{post_page}
use sgtm.Pages.PostPage.Laws.{Visited, post_page-Visited}
use sgtm.Pages.Settings.{settings_page}
use sgtm.Pages.Settings.Laws.{Changed, settings_page-Changed}
use sgtm.Pages.Maintenance.{post_maintenance_page}
use sgtm.Pages.Maintenance.Laws.{Maintained, post_maintenance_page-Maintained}
use sgtm.Pages.Profile.{profile_page}
use sgtm.Pages.Profile.Laws.{profile_page-unknown}
use sgtm.Pages.Home.{last_tracks}
use sgtm.Pages.Home.Laws.{Shows, last_tracks-Shows}
use sgtm.Store.Listing.{IsListed, get_post_list-IsListed}
use sgtm.Service.Templates.{base_data}
use sgtm.Pb.{Post}
use sgtm.Pages.OpenPage.Laws.{IsBelow}
use sgtm.Examples.Sample.{
  alice_form, alice_upload, anonymous_request, first_world, rows, sample_service,
}

post_edit_page-Edited_example :
    Edited sample_service alice_form first_world.db
      (post_edit_page sample_service alice_form first_world).1.db
post_edit_page-Edited_example = post_edit_page-Edited sample_service alice_form first_world

new_page-Added_example :
    Added sample_service alice_upload first_world.db
      (new_page sample_service alice_upload first_world).1.db
new_page-Added_example = new_page-Added sample_service alice_upload first_world

post_page-Visited_example :
    Visited sample_service alice_form first_world.db
      (post_page sample_service alice_form first_world).1.db
post_page-Visited_example = post_page-Visited sample_service alice_form first_world

settings_page-Changed_example :
    Changed sample_service alice_form first_world.db
      (settings_page sample_service alice_form first_world).1.db
settings_page-Changed_example = settings_page-Changed sample_service alice_form first_world

post_maintenance_page-Maintained_example :
    Maintained sample_service alice_form first_world.db
      (post_maintenance_page sample_service alice_form first_world).1.db
post_maintenance_page-Maintained_example =
    post_maintenance_page-Maintained sample_service alice_form first_world

begin_page-KnowsVisitor_example :
    Finds rows (KnowsVisitor sample_service alice_form rows) (begin_page sample_service alice_form)
begin_page-KnowsVisitor_example = begin_page-KnowsVisitor sample_service alice_form rows

nobody : sample_service.store.get_user_by_slug "nobody" rows ≡ ok none
unfolding new_store get_user_by_slug memory
nobody = refl

profile_page-unknown_example : (profile_page sample_service anonymous_request first_world).0 ≡ crash
profile_page-unknown_example =
    profile_page-unknown sample_service anonymous_request first_world refl nobody

abbrev uploads : List UploadsByWeek
uploads =
    record { weekday = pos 0; quantity = pos 4 } ∷ record { weekday = pos 6; quantity = pos 2 } ∷ []

weekdays_in_range : All (λ row. IsBelow 7 row.weekday) uploads
weekdays_in_range = (omega arith, (omega arith, tt))

sample_lists :
    (limit : ℕ) (ps : List Post)
    → sample_service.store.get_post_list limit rows ≡ ok ps
    → All IsListed ps × (length ps ≤ limit)
unfolding new_store
sample_lists limit ps h = get_post_list-IsListed tables memory memory-IsGorm limit rows ps h

last_tracks-Shows_example :
    Finds rows
      (Shows sample_service rows (if is_zero (base_data sample_service).user_id then 10 else 50))
      (last_tracks sample_service (base_data sample_service))
last_tracks-Shows_example =
    last_tracks-Shows sample_service rows (base_data sample_service) sample_lists
