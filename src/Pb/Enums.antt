-- ===== src/Pb/Enums.antt =====
-- pkg/sgtmpb/sgtm.pb.go, the enums, with the numbers that are stored for them.
use sgtm.Common.{ℕ, Bool, true, ◌==◌, ◌≡◌, refl, sym, ap, ◌∙◌, if◌then◌else◌, arith}

pub data Visibility : Type 0 where
  unknown_visibility public draft : Visibility

abbrev pub visibility_number : Visibility → ℕ
visibility_number unknown_visibility = 0
visibility_number public = 1
visibility_number draft = 2

pub data Provider : Type 0 where
  unknown_provider sound_cloud ipfs : Provider

abbrev pub provider_number : Provider → ℕ
provider_number unknown_provider = 0
provider_number sound_cloud = 1
provider_number ipfs = 2

pub data SoundCloudKind : Type 0 where
  unknown_sound_cloud_kind sound_cloud_track : SoundCloudKind

pub data Kind : Type 0 where
  unknown_kind track login register link_discord_account view_profile view_post view_open view_home
        comment :
      Kind

abbrev pub kind_number : Kind → ℕ
kind_number unknown_kind = 0
kind_number track = 1
kind_number login = 2
kind_number register = 3
kind_number link_discord_account = 4
kind_number view_profile = 5
kind_number view_post = 6
kind_number view_open = 7
kind_number view_home = 8
kind_number comment = 9

abbrev pub kind_eq : Kind → Kind → Bool
kind_eq a b = kind_number a == kind_number b

abbrev pub visibility_eq : Visibility → Visibility → Bool
visibility_eq a b = visibility_number a == visibility_number b

abbrev pub provider_eq : Provider → Provider → Bool
provider_eq a b = provider_number a == provider_number b

pub data RelationshipKind : Type 0 where
  unknown_relationship featuring_user remix_of_track new_version_of_track inspired_by_track
        remix_of_user :
      RelationshipKind

kind_of_number : ℕ → Kind
kind_of_number n =
    if n == 1
    then track
    else if n == 2
    then login
    else if n == 3
    then register
    else if n == 4
    then link_discord_account
    else if n == 5
    then view_profile
    else if n == 6
    then view_post
    else if n == 7
    then view_open
    else if n == 8
    then view_home
    else if n == 9
    then comment
    else unknown_kind

kind_of_number-kind_number : (k : Kind) → kind_of_number (kind_number k) ≡ k
unfolding kind_of_number
kind_of_number-kind_number unknown_kind = refl
kind_of_number-kind_number track = refl
kind_of_number-kind_number _ = refl

-- Kinds with the same number are the same.
pub eq_of_kind_eq : (a b : Kind) → kind_eq a b ≡ true → a ≡ b
eq_of_kind_eq a b h =
    let same : kind_number a ≡ kind_number b = ground arith in
    sym (kind_of_number-kind_number a) ∙ ap kind_of_number same ∙ kind_of_number-kind_number b

pub eq_of_visibility_eq : (a b : Visibility) → visibility_eq a b ≡ true → a ≡ b
eq_of_visibility_eq unknown_visibility b h = ground arith
eq_of_visibility_eq public b h = ground arith
eq_of_visibility_eq draft b h = ground arith

pub eq_of_provider_eq : (a b : Provider) → provider_eq a b ≡ true → a ≡ b
eq_of_provider_eq unknown_provider b h = ground arith
eq_of_provider_eq sound_cloud b h = ground arith
eq_of_provider_eq ipfs b h = ground arith
