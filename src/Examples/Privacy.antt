-- ===== src/Examples/Privacy.antt =====
-- Two databases in memory that differ in a draft and in an address, seen without a session.
use sgtm.Common.{
  ℕ, zero, suc, ◌≡◌, refl, sym, ap, ◌∙◌, inl, Bool, true, false, List, [], ◌∷◌, ◌++◌, map,
  if◌then◌else◌,
}
use sgtm.Common.Int.{pos}
use sgtm.Pb.{Post, draft, track, public}
use sgtm.Pb.UserHelpers
use sgtm.Pb.PostHelpers
use sgtm.Db.{ok, PostField, fields, conds_hold}
use sgtm.Db.Selection.{select, take, cut}
use sgtm.Db.Memory.{Memory, memory}
use sgtm.Store.{new_store}
use sgtm.Store.Posts.{get_post_list, create_post}
use sgtm.Store.Create.{create_post_row}
use sgtm.Store.Users.{get_last_users_list}
use sgtm.Pages.Privacy.{Hides}
use sgtm.Server.{serve}
use sgtm.Server.Privacy.{AnswersAlike, serve-AnswersAlike}
use sgtm.Web.{World, new_writer}
use sgtm.Examples.Sample.{alice, song, rows, first_world, anonymous_request, sample_service}
use sgtm.Examples.Server.{packages, home_route, home_found}

abbrev is_listed : Post → Bool
is_listed = conds_hold (fields (PostField.visibility public ∷ PostField.kind track ∷ []) ∷ [])

-- The same users but for what the store takes off them, and the same public tracks.
record LooksAlike (m m' : Memory) : Type 0 where
  users : map UserHelpers.filter m.users ≡ map UserHelpers.filter m'.users
  tracks : select is_listed m.posts ≡ select is_listed m'.posts
  next : m.next ≡ m'.next

map-take : {A B : Type 0} (f : A → B) (n : ℕ) (xs : List A) → map f (take n xs) ≡ take n (map f xs)
unfolding take
map-take f zero xs = refl
map-take f (suc n) [] = refl
map-take f (suc n) (x ∷ xs) = ap (λ l. f x ∷ l) (map-take f n xs)

select-append :
    (test : Post → Bool) (xs ys : List Post)
    → select test (xs ++ ys) ≡ select test xs ++ select test ys
unfolding select
select-append test [] ys = refl
select-append test (x ∷ xs) ys = by_test (test x) (select-append test xs ys)
  where
    by_test :
        (b : Bool)
        → select test (xs ++ ys) ≡ select test xs ++ select test ys
        → (if b then x ∷ select test (xs ++ ys) else select test (xs ++ ys))
          ≡ (if b then x ∷ select test xs else select test xs) ++ select test ys
    by_test true e = ap (λ l. x ∷ l) e
    by_test false e = e

sample-Hides : Hides LooksAlike sample_service
unfolding new_store get_post_list get_last_users_list create_post create_post_row memory cut
sample-Hides = record {
  get_post_list =
      λ limit s s' h. ap (λ (ps : List Post). ok (map PostHelpers.filter (take limit ps))) h.tracks;
  get_last_users_list = λ limit s s' h. ap ok (
      map-take UserHelpers.filter limit s.users
      ∙ ap (take limit) h.users
      ∙ sym (map-take UserHelpers.filter limit s'.users));
  create_view = λ p viewed s s' h.
      let stored = record p { id = pos (suc s.next) } in
      let stored' = record p { id = pos (suc s'.next) } in
      let same : stored ≡ stored' = ap (λ (n : ℕ). record p { id = pos (suc n) }) h.next in
      (
        ap ok same,
        record {
          users = h.users;
          tracks =
              select-append is_listed s.posts (stored ∷ [])
              ∙ ap (λ (ps : List Post). ps ++ select is_listed (stored ∷ [])) h.tracks
              ∙ ap (λ (q : Post). select is_listed s'.posts ++ select is_listed (q ∷ [])) same
              ∙ sym (select-append is_listed s'.posts (stored' ∷ []));
          next = ap suc h.next;
        },
      );
}

-- A draft more, and another address.
abbrev private_rows : Memory
private_rows = record rows {
  users = record alice { email = "alice@example.org" } ∷ [];
  posts = record song { id = pos 6; visibility = draft } ∷ song ∷ [];
}

rows-LooksAlike : LooksAlike rows private_rows
unfolding UserHelpers.filter select
rows-LooksAlike = record { users = refl; tracks = refl; next = refl }

abbrev private_world : World Memory
private_world = record { db = private_rows; writer = new_writer }

serve-AnswersAlike_example :
    AnswersAlike LooksAlike
      (serve sample_service packages [] anonymous_request first_world)
      (serve sample_service packages [] anonymous_request private_world)
serve-AnswersAlike_example =
    serve-AnswersAlike sample_service sample-Hides packages [] anonymous_request anonymous_request
      home_route first_world private_world home_found (inl refl) refl rows-LooksAlike refl
