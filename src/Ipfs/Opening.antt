-- ===== src/Ipfs/Opening.antt =====
-- What a successful read takes, of a pipe that is open or of a command that it starts.
use mathlib.Core.Path.{subst}
use sgtm.Common.{
  ℕ, zero, suc, ◌<◌, ◌≤◌, ◌^◌, ◌≡◌, refl, ◌∙◌, inl, inr, Option, none, some, String, List, [], ◌∷◌,
  ◌++◌, length, drop, arith, ltb, true, false, ◌+◌, if◌then◌else◌,
}
use sgtm.Common.Int.{ℤ, pos, negsuc, pos_part, int64, ltb_ℤ}
use sgtm.Common.Decimal.{format_int, IsInt64}
use sgtm.Db.{Error, Result, ok, err, panic}
use sgtm.Ipfs.{Reader, Exec, cat_args, api_args, ensure_from, open_pipe, piped, read_from, opened}
use sgtm.Ipfs.Stream.{IsCat, Cats}

pub int64-IsInt64 : (a : ℤ) → IsInt64 (int64 a)
unfolding int64
int64-IsInt64 (pos n) = ground arith
int64-IsInt64 (negsuc n) = ground arith

args_at-IsCat :
    (o : ℤ) (api cid : String)
    → IsCat
        (api_args api
          ++ ("cat" ∷ cid ∷ (if ltb_ℤ (pos 0) o then "--offset" ∷ format_int o ∷ [] else [])))
        api
        cid
        (pos_part o)
args_at-IsCat (pos zero) api cid = inl (refl, refl)
args_at-IsCat (pos (suc n)) api cid =
    let positive : ltb 0 (suc n + 0) ≡ true = ground arith in inr (rw positive refl)
args_at-IsCat (negsuc n) api cid =
    let negative : ltb (0 + suc n) 0 ≡ false = ground arith in inl (rw negative refl, refl)

cat_args-IsCat : (r : Reader) → IsCat (cat_args r) r.api r.cid (pos_part r.offset)
unfolding cat_args
cat_args-IsCat r = args_at-IsCat r.offset r.api r.cid

pos_part-IsInt64 : (a : ℤ) → IsInt64 a → pos_part a < 2 ^ 63
pos_part-IsInt64 (pos n) h = h
pos_part-IsInt64 (negsuc n) h = omega arith

module _ {S : Type 0} (x : Exec S) (content : String → List ℕ) (law : Cats x content) where
  -- What a read that gave some bytes did to a pipe that held something.
  abbrev pub Took : List ℕ → ℕ → List ℕ → Option ℕ → S → Type 0
  Took before n bytes pipe s' =
      (p : ℕ) × (pipe ≡ some p) × (before ≡ bytes ++ law.left p s') × (length bytes ≤ n)

  read_from-Took :
      (n : ℕ) (o : Option ℕ) (p : ℕ) (r : Reader) (s : S) (bytes : List ℕ)
      → o ≡ some p
      → r.pipe ≡ o
      → (read_from x n o r s).0 ≡ ok bytes
      → Took (law.left p s) n bytes (read_from x n o r s).1.pipe (read_from x n o r s).2
  unfolding read_from
  read_from-Took n none p r s bytes e same h = cc
  read_from-Took n (some q) p r s bytes e same h =
      let named : q ≡ p = cc in
      let taken = law.read_pipe q n s bytes h in
      (
        q,
        same,
        subst (λ (i : ℕ). law.left i s ≡ bytes ++ law.left q (x.read_pipe q n s).1) named taken.0,
        taken.1,
      )

  -- A pipe that is open already.
  pub opened-Took :
      (n : ℕ) (o : Option ℕ) (p : ℕ) (r : Reader) (s : S) (bytes : List ℕ)
      → o ≡ some p
      → r.pipe ≡ o
      → (opened x n (ensure_from x o r s)).0 ≡ ok bytes
      → Took
          (law.left p s)
          n
          bytes
          (opened x n (ensure_from x o r s)).1.pipe
          (opened x n (ensure_from x o r s)).2
  unfolding opened ensure_from
  opened-Took n none p r s bytes e same h = cc
  opened-Took n (some q) p r s bytes e same h =
      read_from-Took n r.pipe p r s bytes (same ∙ e) refl h

  -- A command, by how its start ended.
  started-Took :
      (n c p : ℕ) (r : Reader) (bytes : List ℕ) (e : Result (Unit {0})) (s : S)
      → r.pipe ≡ some p
      → (opened x n (e, r, s)).0 ≡ ok bytes
      → (e ≡ ok tt)
        × Took (law.left p s) n bytes (opened x n (e, r, s)).1.pipe (opened x n (e, r, s)).2
  unfolding opened
  started-Took n c p r bytes (ok tt) s same h =
      (refl, read_from-Took n r.pipe p r s bytes same refl h)
  started-Took n c p r bytes (err e) s same h = cc
  started-Took n c p r bytes panic s same h = cc

  not_open :
      {A : Type 0} (n : ℕ) (e : Error) (r : Reader) (s : S) {bytes : List ℕ}
      → (opened x n (err e, r, s)).0 ≡ ok bytes
      → A
  unfolding opened
  not_open n e r s h = cc

  crashed_open :
      {A : Type 0} (n : ℕ) (r : Reader) (s : S) {bytes : List ℕ}
      → (opened x n (panic, r, s)).0 ≡ ok bytes
      → A
  unfolding opened
  crashed_open n r s h = cc

  piped-Took :
      (n c : ℕ) (e : Result ℕ) (r : Reader) (s : S) (before bytes : List ℕ)
      → ((p : ℕ) → e ≡ ok p → (x.start c s).0 ≡ ok tt → law.left p (x.start c s).1 ≡ before)
      → (opened x n (piped x c e r s)).0 ≡ ok bytes
      → Took before n bytes (opened x n (piped x c e r s)).1.pipe (opened x n (piped x c e r s)).2
  unfolding piped
  piped-Took n c (ok p) r s before bytes gives h =
      let now = record r { cmd = some c; pipe = some p } in
      let (begun, took) = started-Took n c p now bytes (x.start c s).0 (x.start c s).1 refl h in
      subst
        (λ (b : List ℕ).
          Took b n bytes (opened x n ((x.start c s).0, now, (x.start c s).1)).1.pipe
            (opened x n ((x.start c s).0, now, (x.start c s).1)).2)
        (gives p refl begun) took
  piped-Took n c (err e) r s before bytes gives h =
      not_open n e (record r { cmd = some c; pipe = none }) s h
  piped-Took n c panic r s before bytes gives h = crashed_open n (record r { cmd = some c }) s h

  open_pipe-Took :
      (n : ℕ) (r : Reader) (s : S) (bytes : List ℕ)
      → IsInt64 r.offset
      → (opened x n (open_pipe x r s)).0 ≡ ok bytes
      → Took
          (drop (pos_part r.offset) (content r.cid))
          n
          bytes
          (opened x n (open_pipe x r s)).1.pipe
          (opened x n (open_pipe x r s)).2
  unfolding open_pipe
  open_pipe-Took n r s bytes range h =
      let (c, s1) = x.command (cat_args r) s in
      let (e, s2) = x.stdout_pipe c s1 in
      piped-Took n c e r s2 _ bytes
        (λ p.
          law.cat (cat_args r) r.api r.cid (pos_part r.offset) p s (cat_args-IsCat r)
            (pos_part-IsInt64 r.offset range))
        h

  pub first-Took :
      (n : ℕ) (o : Option ℕ) (r : Reader) (s : S) (bytes : List ℕ)
      → o ≡ none
      → IsInt64 r.offset
      → (opened x n (ensure_from x o r s)).0 ≡ ok bytes
      → Took
          (drop (pos_part r.offset) (content r.cid))
          n
          bytes
          (opened x n (ensure_from x o r s)).1.pipe
          (opened x n (ensure_from x o r s)).2
  unfolding ensure_from
  first-Took n none r s bytes e range h = open_pipe-Took n r s bytes range h
  first-Took n (some p) r s bytes e range h = cc
