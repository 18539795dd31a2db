-- ===== src/Pb.antt =====
-- pkg/sgtmpb/sgtm.pb.go (from api/sgtm.proto): the messages (the enums are in Enums) that the program stores,
-- passes on and compares. Of the association fields only Post.Author is read by the code that is
-- modelled; the others are filled for the templates alone and have no field here.
mod Enums
pub use Enums.*
pub mod PostHelpers
pub mod UserHelpers
pub mod Text
mod Tests
use sgtm.Common.{ℕ, Option, none, String}
use sgtm.Common.Int.{ℤ, pos}

pub record User : Type 0 where
  pub id : ℤ
  pub created_at : ℤ
  pub updated_at : ℤ
  pub deleted_at : ℤ
  pub email : String
  pub slug : String
  pub firstname : String
  pub lastname : String
  pub locale : String
  pub avatar : String
  pub discord_id : String
  pub discord_username : String
  pub headline : String
  pub bio : String
  pub inspirations : String
  pub gears : String
  pub genres : String
  pub location : String
  pub twitter_username : String
  pub homepage : String
  pub other_links : String
  pub goals : String
  pub soundcloud_username : String
  pub role : String
  pub processing_version : ℤ
  pub processing_error : String

-- `BPM` is a double, which the code only copies: here the number of its 64 bits.
pub record Post : Type 0 where
  pub id : ℤ
  pub created_at : ℤ
  pub updated_at : ℤ
  pub deleted_at : ℤ
  pub author : Option User
  pub author_id : ℤ
  pub title : String
  pub slug : String
  pub kind : Kind
  pub visibility : Visibility
  pub url : String
  pub provider : Provider
  pub body : String
  pub sort_date : ℤ
  pub processing_version : ℤ
  pub processing_error : String
  pub genre : String
  pub duration : ℕ
  pub artwork_url : String
  pub bpm : ℕ
  pub key_signature : String
  pub isrc : String
  pub provider_title : String
  pub provider_description : String
  pub download_url : String
  pub provider_created_at : ℤ
  pub provider_updated_at : ℤ
  pub provider_metadata : String
  pub tags : String
  pub lyrics : String
  pub soundcloud_secret_token : String
  pub soundcloud_id : ℕ
  pub soundcloud_kind : SoundCloudKind
  pub ipfs_cid : String
  pub mime_type : String
  pub size_bytes : ℤ
  pub file_extension : String
  pub attachment_filename : String
  pub target_user_id : ℤ
  pub target_post_id : ℤ
  pub target_metadata : String

pub record Relationship : Type 0 where
  pub id : ℤ
  pub created_at : ℤ
  pub updated_at : ℤ
  pub deleted_at : ℤ
  pub kind : RelationshipKind
  pub source_post_id : ℤ
  pub target_post_id : ℤ
  pub source_user_id : ℤ
  pub target_user_id : ℤ
  pub source_raw : String
  pub target_raw : String
  pub metadata : String

pub record Session : Type 0 where
  pub user_id : ℤ
  pub discord_access_token : String

pub record UploadsByWeek : Type 0 where
  pub weekday : ℤ
  pub quantity : ℤ

pub record PostByKind : Type 0 where
  pub quantity : ℤ
  pub kind : Kind

-- The zero values that Go gives to a struct literal's missing fields.
abbrev pub zero_user : User
zero_user = record {
  id = pos 0;
  created_at = pos 0;
  updated_at = pos 0;
  deleted_at = pos 0;
  email = "";
  slug = "";
  firstname = "";
  lastname = "";
  locale = "";
  avatar = "";
  discord_id = "";
  discord_username = "";
  headline = "";
  bio = "";
  inspirations = "";
  gears = "";
  genres = "";
  location = "";
  twitter_username = "";
  homepage = "";
  other_links = "";
  goals = "";
  soundcloud_username = "";
  role = "";
  processing_version = pos 0;
  processing_error = "";
}

abbrev pub zero_post : Post
zero_post = record {
  id = pos 0;
  created_at = pos 0;
  updated_at = pos 0;
  deleted_at = pos 0;
  author = none;
  author_id = pos 0;
  title = "";
  slug = "";
  kind = unknown_kind;
  visibility = unknown_visibility;
  url = "";
  provider = unknown_provider;
  body = "";
  sort_date = pos 0;
  processing_version = pos 0;
  processing_error = "";
  genre = "";
  duration = 0;
  artwork_url = "";
  bpm = 0;
  key_signature = "";
  isrc = "";
  provider_title = "";
  provider_description = "";
  download_url = "";
  provider_created_at = pos 0;
  provider_updated_at = pos 0;
  provider_metadata = "";
  tags = "";
  lyrics = "";
  soundcloud_secret_token = "";
  soundcloud_id = 0;
  soundcloud_kind = unknown_sound_cloud_kind;
  ipfs_cid = "";
  mime_type = "";
  size_bytes = pos 0;
  file_extension = "";
  attachment_filename = "";
  target_user_id = pos 0;
  target_post_id = pos 0;
  target_metadata = "";
}

abbrev pub zero_relationship : Relationship
zero_relationship = record {
  id = pos 0;
  created_at = pos 0;
  updated_at = pos 0;
  deleted_at = pos 0;
  kind = unknown_relationship;
  source_post_id = pos 0;
  target_post_id = pos 0;
  source_user_id = pos 0;
  target_user_id = pos 0;
  source_raw = "";
  target_raw = "";
  metadata = "";
}
