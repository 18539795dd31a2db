-- ===== src/Pages/NewPost/TrackPath.antt =====
-- pkg/sgtm/page_new.go: the group of the pattern `/tracks/(.*).json` in a path.
use Prim.Native.Char.{code}
use Prim.Native.String.{String, [], ◌∷◌}
use sgtm.Common.{Option, none, some, has_prefix, if◌then◌else◌, ◌==◌, ◌≡◌, refl}

-- The longest text before any character and "json", on one line.
greedy : String → Option String
greedy [] = none
greedy (c ∷ s) =
    let here : Option String = if has_prefix s "json" then some "" else none in
    let found : Option String = elim (greedy s) [ some t ↦ some (c ∷ t) | none ↦ here ] in
    if code c == 10 then none else found

after : String → String → Option String
after s [] = some s
after [] (p ∷ ps) = none
after (c ∷ s) (p ∷ ps) = if code c == code p then after s ps else none

match_here : Option String → Option String
match_here none = none
match_here (some rest) = greedy rest

-- The leftmost match.
unfoldable pub track_path : String → Option String
unfolding greedy after match_here
track_path [] = none
track_path (c ∷ s) =
    let later = track_path s in
    elim (match_here (after (c ∷ s) "/tracks/")) [ some t ↦ some t | none ↦ later ]

api_path : track_path "/tracks/1234.json" ≡ some "1234"
unfolding track_path has_prefix
api_path = refl
