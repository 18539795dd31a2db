-- ===== src/Db/MemoryTracks.antt =====
-- The database in memory finds what it stores, and draws ids that are not 0.
use sgtm.Common.{suc, map, ◌≡◌, refl, ◌≢◌, List, [], ◌∷◌, All}
use sgtm.Common.Int.{pos}
use sgtm.Pb.{Post}
use sgtm.Db.Outcome.{Result, ok, err, panic}
use sgtm.Db.Query.{PostCond, conds_hold}
use sgtm.Db.Selection.{first-holds, first-none, select-keeps}
use sgtm.Db.Memory.{Memory, memory, tables}
use sgtm.Db.Rows.{PostKey, post_key}
use sgtm.Db.Tracks.{FindsTracks, Answers, SearchesWell, cid_conds, scid_conds}

All-rows :
    (P : PostKey → Type 0) (ps : List Post) → All P (map post_key ps) → All (λ p. P (post_key p)) ps
All-rows P [] h = tt
All-rows P (p ∷ ps) h = (h.0, All-rows P ps h.1)

suc_ne : (n : _) → pos (suc n) ≢ pos 0
suc_ne n e = cc

first-Answers :
    (cs : List PostCond) (s : Memory) (r : Result Post) → memory.first_post cs s ≡ r → Answers r
unfolding memory
first-Answers cs s (ok p) e = tt
first-Answers cs s (err x) e = (first-none (conds_hold cs) s.posts x e).0
first-Answers cs s panic e = tt

-- No search fails for another reason than that there is no such row.
pub memory-SearchesWell : (s : Memory) → SearchesWell memory s
memory-SearchesWell s = record {
  cid = λ c. first-Answers (cid_conds c) s _ refl;
  scid = λ i. first-Answers (scid_conds i) s _ refl;
}

pub memory-FindsTracks : FindsTracks tables memory
unfolding memory
memory-FindsTracks = record {
  first_post_stored = λ cs s p P e h.
      first-holds (λ p. P (post_key p)) _ p
        (select-keeps (λ p. P (post_key p)) (conds_hold cs) s.posts (All-rows P s.posts h)) e;
  first_post_none = λ cs s e. (first-none (conds_hold cs) s.posts _ e).1;
  generate_id = λ s. suc_ne s.next;
}
