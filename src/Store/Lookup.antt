-- ===== src/Store/Lookup.antt =====
-- How a path segment finds a post: `GetPostBySlugOrID` and the searches for a duplicate track.
use sgtm.Common.{◌≡◌, ◌≢◌, refl, true, String, arith, eq_iff, some, none}
use sgtm.Common.Int.{ℤ, pos, int_eq_iff}
use sgtm.Common.Decimal.{parse_int, format_int, parse_int-format_int, IsInt64}
use sgtm.Pb.{Post, track, eq_of_kind_eq}
use sgtm.Db.{Gorm, ok, conds_hold}
use sgtm.Db.Laws.{Tables, IsGorm}
use sgtm.Store.Posts.{slug_or_id_conds, get_post_by_slug_or_id, get_track_by_cid}

slug_or_id_conds-number :
    (i : ℤ) (p : Post) (segment : String)
    → i ≢ pos 0
    → parse_int segment ≡ some i
    → conds_hold (slug_or_id_conds segment) p ≡ true
    → (p.id ≡ i) × (p.kind ≡ track)
unfolding slug_or_id_conds
slug_or_id_conds-number i p segment nonzero read h =
    let by_id = rw (read, slug_or_id_conds) at h in
    (
      ground (arith, int_eq_iff i (pos 0), int_eq_iff p.id i),
      eq_of_kind_eq p.kind track (ground arith),
    )

slug_or_id_conds-slug :
    (p : Post) (segment : String)
    → segment ≢ ""
    → parse_int segment ≡ none
    → conds_hold (slug_or_id_conds segment) p ≡ true
    → (p.slug ≡ segment) × (p.kind ≡ track)
unfolding slug_or_id_conds
slug_or_id_conds-slug p segment nonempty read h =
    let by_slug = rw (read, slug_or_id_conds) at h in
    (
      ground (arith, eq_iff segment "", eq_iff p.slug segment),
      eq_of_kind_eq p.kind track (ground arith),
    )

module _ {S : Type 0} (t : Tables S) (g : Gorm S) (law : IsGorm t g) where
  -- Over a database that meets `IsGorm`, what is found for the decimal text of an int64 other than
  -- 0 is a track with that number as its id.
  pub get_post_by_slug_or_id-format_int :
      (i : ℤ) (s : S) (p : Post)
      → IsInt64 i
      → i ≢ pos 0
      → get_post_by_slug_or_id g (format_int i) s ≡ ok p
      → (p.id ≡ i) × (p.kind ≡ track)
  unfolding get_post_by_slug_or_id
  get_post_by_slug_or_id-format_int i s p fits nonzero found =
      slug_or_id_conds-number i p (format_int i) nonzero (parse_int-format_int i fits)
        (law.first_post_holds (slug_or_id_conds (format_int i)) s p found)

  -- Over a database that meets `IsGorm`, what is found for a segment that is neither empty nor a
  -- number is a track with that slug.
  pub get_post_by_slug_or_id-slug :
      (segment : String) (s : S) (p : Post)
      → segment ≢ ""
      → parse_int segment ≡ none
      → get_post_by_slug_or_id g segment s ≡ ok p
      → (p.slug ≡ segment) × (p.kind ≡ track)
  unfolding get_post_by_slug_or_id
  get_post_by_slug_or_id-slug segment s p nonempty read found =
      slug_or_id_conds-slug p segment nonempty read
        (law.first_post_holds (slug_or_id_conds segment) s p found)

  -- Over a database that meets `IsGorm`, a track that is found for a content id that is not empty
  -- has that content id.
  pub get_track_by_cid_lem :
      (cid : String) (s : S) (p : Post)
      → cid ≢ ""
      → get_track_by_cid g cid s ≡ ok p
      → p.ipfs_cid ≡ cid
  unfolding get_track_by_cid
  get_track_by_cid_lem cid s p nonempty found =
      let h = law.first_post_holds _ s p found in
      ground (arith, eq_iff cid "", eq_iff p.ipfs_cid cid)

-- Every track meets the conditions for a segment that reads as the number 0, such as "0", "-0" or
-- "00": gorm leaves the zero id out of the condition.
pub slug_or_id_conds-zero :
    (segment : String) (p : Post)
    → parse_int segment ≡ some (pos 0)
    → p.kind ≡ track
    → conds_hold (slug_or_id_conds segment) p ≡ true
unfolding slug_or_id_conds
slug_or_id_conds-zero segment p read kind = rw (read, slug_or_id_conds) (rw kind refl)
