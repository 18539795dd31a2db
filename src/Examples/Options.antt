-- ===== src/Examples/Options.antt =====
-- Options of a service with its secrets, and without.
use Prim.Native.String
use sgtm.Common.{arith, ℕ, ◌<◌, ◌≡◌, ◌≢◌, refl, String, some, false, str_eq, eq_iff}
use sgtm.Db.{ok}
use sgtm.Opts.{Defaults, default_opts, filtered, rand_string}
use sgtm.Opts.Laws.{Secrets, AreSet, with_secrets, filtered_hides, rand_string_total}

abbrev some_secrets : Secrets
some_secrets = record { token = "t"; channel = "c"; client_secret = "s"; signing_key = "k" }

abbrev other_secrets : Secrets
other_secrets = record { token = "tt"; channel = "cc"; client_secret = "ss"; signing_key = "kk" }

unequal : (a b : String) → str_eq a b ≡ false → a ≢ b
unequal a b h = ground (arith, eq_iff a b)

some_set : AreSet some_secrets
some_set = (unequal "t" "" refl, unequal "c" "" refl, unequal "s" "" refl, unequal "k" "" refl)

other_set : AreSet other_secrets
other_set = (unequal "tt" "" refl, unequal "cc" "" refl, unequal "ss" "" refl, unequal "kk" "" refl)

filtered_hides_example :
    filtered (with_secrets default_opts some_secrets)
    ≡ filtered (with_secrets default_opts other_secrets)
filtered_hides_example = filtered_hides default_opts some_secrets other_secrets some_set other_set

abbrev env : Defaults
env = record { todo = 1; nop = 2; new_node = λ n. ok 3; draw = λ i. 0 }

always_first : (i : ℕ) → env.draw i < 52
always_first i = omega arith

rand_string_total_example : (s : String) × (rand_string env.draw 3 ≡ some s) × (String.count s ≡ 3)
rand_string_total_example = rand_string_total env.draw 3 always_first
