-- ===== src/Ipfs.antt =====
-- pkg/sgtm/ipfs.go: the reader of a file that is kept in IPFS, which runs `ipfs cat` when it is read.
pub mod Laws
pub mod Stream
pub mod Opening
pub mod Refinement
pub mod Add
use sgtm.Common.{
  ℕ, suc, ◌+◌, Bool, String, Option, none, some, List, [], ◌∷◌, ◌++◌, if◌then◌else◌, str_eq, ◌<>◌,
}
use sgtm.Common.Int.{ℤ, pos, negsuc, ltb_ℤ, ◌+ℤ◌, int64}
use sgtm.Common.Decimal.{format_int}
use sgtm.Db.{Error, Result, ok, err, panic}

-- The command and its pipe are named by the number of the run; `mu` makes each call atomic.
pub record Reader : Type 0 where
  pub api : String
  pub cid : String
  pub size : ℤ
  pub cmd : Option ℕ
  pub pipe : Option ℕ
  pub offset : ℤ

-- `ipfsCat`
unfoldable pub ipfs_cat : String → String → ℤ → Reader
ipfs_cat api cid size = record {
  api = api;
  cid = cid;
  size = size;
  cmd = none;
  pipe = none;
  offset = pos 0;
}

abbrev pub api_args : String → List String
api_args api = if str_eq api "" then [] else "--api" ∷ api ∷ []

-- The arguments of `ipfs cat`.
unfoldable pub cat_args : Reader → List String
cat_args r =
    api_args r.api
    ++ ("cat"
        ∷ r.cid
        ∷ (if ltb_ℤ (pos 0) r.offset then "--offset" ∷ format_int r.offset ∷ [] else []))

-- The arguments of `ipfs add`.
unfoldable pub add_args : String → List String
add_args api = api_args api ++ ("add" ∷ "-Q" ∷ [])

-- Package os/exec, over the state `S` of the processes: a new command has a new number; then its
-- standard output, its start, and the end of its pipe and of itself.
pub record Exec (S : Type 0) : Type 0 where
  pub command : List String → S → ℕ × S
  pub stdout_pipe : ℕ → S → Result ℕ × S
  pub start : ℕ → S → Result (Unit {0}) × S
  pub close_pipe : ℕ → S → Result (Unit {0}) × S
  pub wait : ℕ → S → Result (Unit {0}) × S
  -- `pipe.Read(p)` for a buffer of some length, with the bytes read
  pub read_pipe : ℕ → ℕ → S → Result (List ℕ) × S

pub data Whence : Type 0 where
  seek_start seek_current seek_end : Whence
  -- any other number
  unknown : Whence

-- A method's result, with the reader and the processes behind it.
abbrev pub Call : Type 0 → Type 0 → Type 0
Call S A = Result A × Reader × S

-- `if err := f.cmd.Wait(); err != nil { return err }; f.cmd = nil`
unfoldable waited : {S : Type 0} → Result (Unit {0}) → Reader → S → Call S (Unit {0})
waited (ok done) r s = (ok tt, record r { cmd = none }, s)
waited (err e) r s = (err e, r, s)
waited panic r s = (panic, r, s)

unfoldable pub move : Reader → ℤ → Whence → ℤ
move r offset seek_start = offset
move r offset seek_current = int64 (r.offset +ℤ offset)
move r offset seek_end = int64 (r.size +ℤ offset)
move r offset unknown = r.offset

-- `Seek` behind its close.
unfoldable sought : {S : Type 0} → ℤ → Whence → Call S (Unit {0}) → Call S ℤ
unfolding move
sought offset whence (ok done, r, s) =
    (ok (move r offset whence), record r { offset = move r offset whence }, s)
sought offset whence (err e, r, s) = (err e, r, s)
sought offset whence (panic, r, s) = (panic, r, s)

module _ {S : Type 0} (x : Exec S) where
  -- The end of `lockedClose`: wait for the command.
  unfoldable wait_cmd : Option ℕ → Reader → S → Call S (Unit {0})
  unfolding waited
  wait_cmd none r s = (ok tt, r, s)
  wait_cmd (some c) r s = let (e, s') = x.wait c s in waited e r s'

  unfoldable pipe_closed : Result (Unit {0}) → Reader → S → Call S (Unit {0})
  unfolding wait_cmd
  pipe_closed (ok done) r s = wait_cmd r.cmd (record r { pipe = none }) s
  pipe_closed (err e) r s = (err e, r, s)
  pipe_closed panic r s = (panic, r, s)

  unfoldable close_then : Option ℕ → Reader → S → Call S (Unit {0})
  unfolding wait_cmd pipe_closed
  close_then none r s = wait_cmd r.cmd r s
  close_then (some p) r s = let (e, s') = x.close_pipe p s in pipe_closed e r s'

  unfoldable pub locked_close : Reader → S → Call S (Unit {0})
  unfolding close_then
  locked_close r s = close_then r.pipe r s

  unfoldable pub close : Reader → S → Call S (Unit {0})
  unfolding locked_close
  close r s = locked_close r s

  -- `Seek`: the error of the close, or the new offset
  unfoldable pub seek : ℤ → Whence → Reader → S → Call S ℤ
  unfolding locked_close sought
  seek offset whence r s = sought offset whence (locked_close r s)

  -- The command starts once its pipe is kept.
  unfoldable piped : ℕ → Result ℕ → Reader → S → Call S (Unit {0})
  piped c (ok p) r s =
      let (e, s') = x.start c s in (e, record r { cmd = some c; pipe = some p }, s')
  piped c (err e) r s = (err e, record r { cmd = some c; pipe = none }, s)
  piped c panic r s = (panic, record r { cmd = some c }, s)

  -- The new command is kept before its pipe is asked for.
  unfoldable open_pipe : Reader → S → Call S (Unit {0})
  unfolding piped
  open_pipe r s =
      let (c, s1) = x.command (cat_args r) s in let (e, s2) = x.stdout_pipe c s1 in piped c e r s2

  unfoldable ensure_from : Option ℕ → Reader → S → Call S (Unit {0})
  unfolding open_pipe
  ensure_from (some p) r s = (ok tt, r, s)
  ensure_from none r s = open_pipe r s

  unfoldable pub ensure_pipe_open : Reader → S → Call S (Unit {0})
  unfolding ensure_from
  ensure_pipe_open r s = ensure_from r.pipe r s

  unfoldable read_from : ℕ → Option ℕ → Reader → S → Call S (List ℕ)
  read_from n none r s = (panic, r, s)
  read_from n (some p) r s = let (e, s') = x.read_pipe p n s in (e, r, s')

  unfoldable opened : ℕ → Call S (Unit {0}) → Call S (List ℕ)
  unfolding read_from
  opened n (ok done, r, s) = read_from n r.pipe r s
  opened n (err e, r, s) = (err e, r, s)
  opened n (panic, r, s) = (panic, r, s)

  -- `Read` into a buffer of `n` bytes
  unfoldable pub read : ℕ → Reader → S → Call S (List ℕ)
  unfolding ensure_pipe_open opened
  read n r s = opened n (ensure_pipe_open r s)
