-- ===== src/Ipfs/Stream.antt =====
-- The specification of the reader: a position in a file, and what each call may answer there.
use sgtm.Common.{ℕ, ◌<◌, ◌≤◌, ◌^◌, ◌≡◌, ◌⊎◌, String, List, [], ◌∷◌, ◌++◌, length, drop}
use sgtm.Common.Int.{ℤ, pos, pos_part, int64, ◌+ℤ◌}
use sgtm.Common.Decimal.{format_int, IsInt64}
use sgtm.Db.{Error, Result, ok, err, panic}
use sgtm.Ipfs
use sgtm.Ipfs.{Reader, Exec, Whence, seek_start, seek_current, seek_end, unknown, api_args}

-- What the next read gives: the file from the offset on, the rest of what is being read, or, behind
-- a call that failed, nothing that is known.
pub data Rest : Type 0 where
  idle lost : Rest
  reading : List ℕ → Rest

pub record Position : Type 0 where
  -- where the last seek went
  pub offset : ℤ
  pub rest : Rest

-- A call with its result.
pub data Did : Type 0 where
  did_read : ℕ → Result (List ℕ) → Did
  did_seek : ℤ → Whence → Result ℤ → Did
  did_close : Result (Unit {0}) → Did

abbrev pub Panics : Did → Type 0
Panics (did_read n result) = result ≡ panic
Panics (did_seek offset whence result) = result ≡ panic
Panics (did_close result) = result ≡ panic

-- Where a seek goes: the reading since the last seek does not count.
abbrev pub target : ℤ → ℤ → ℤ → Whence → ℤ
target size o offset seek_start = offset
target size o offset seek_current = int64 (o +ℤ offset)
target size o offset seek_end = int64 (size +ℤ offset)
target size o offset unknown = o

module _ (content : List ℕ) (size : ℤ) where
  -- What a call may answer at a position, and the position behind it.
  pub data Allowed : Position → Did → Position → Type 0 where
    read_first :
        {o : ℤ} {n : ℕ} {bytes later : List ℕ}
        → drop (pos_part o) content ≡ bytes ++ later
        → length bytes ≤ n
        → Allowed
            (record { offset = o; rest = idle })
            (did_read n (ok bytes))
            (record { offset = o; rest = reading later })
    read_on :
        {o : ℤ} {n : ℕ} {now bytes later : List ℕ}
        → now ≡ bytes ++ later
        → length bytes ≤ n
        → Allowed
            (record { offset = o; rest = reading now })
            (did_read n (ok bytes))
            (record { offset = o; rest = reading later })
    read_astray :
        {o : ℤ} {n : ℕ} {bytes : List ℕ}
        → Allowed
            (record { offset = o; rest = lost })
            (did_read n (ok bytes))
            (record { offset = o; rest = lost })
    read_failed :
        {o : ℤ} {rest : Rest} {n : ℕ} {e : Error}
        → Allowed
            (record { offset = o; rest = rest })
            (did_read n (err e))
            (record { offset = o; rest = lost })
    seek_done :
        {o : ℤ} {rest : Rest} {offset : ℤ} {whence : Whence}
        → Allowed
            (record { offset = o; rest = rest })
            (did_seek offset whence (ok (target size o offset whence)))
            (record { offset = target size o offset whence; rest = idle })
    seek_failed :
        {o : ℤ} {rest : Rest} {offset : ℤ} {whence : Whence} {e : Error}
        → Allowed
            (record { offset = o; rest = rest })
            (did_seek offset whence (err e))
            (record { offset = o; rest = lost })
    close_done :
        {o : ℤ} {rest : Rest}
        → Allowed
            (record { offset = o; rest = rest })
            (did_close (ok tt))
            (record { offset = o; rest = idle })
    close_failed :
        {o : ℤ} {rest : Rest} {e : Error}
        → Allowed
            (record { offset = o; rest = rest })
            (did_close (err e))
            (record { offset = o; rest = lost })

  -- Calls one after the other, up to the first that panics.
  abbrev pub Follows : Position → List Did → Type 0
  Follows a [] = Unit
  Follows a (d ∷ later) = Panics d ⊎ ((a' : Position) × Allowed a d a' × Follows a' later)

-- The arguments that run `ipfs cat` for a file, from some byte on.
abbrev pub IsCat : List String → String → String → ℕ → Type 0
IsCat args api cid n =
    ((args ≡ api_args api ++ ("cat" ∷ cid ∷ [])) × (n ≡ 0))
    ⊎ (args ≡ api_args api ++ ("cat" ∷ cid ∷ "--offset" ∷ format_int (pos n) ∷ []))

-- What the program relies on: the pipe of a started `ipfs cat` gives the file from the given byte
-- on, and a read from it gives no more bytes than the buffer holds, from the front.
pub record Cats {S : Type 0} (x : Exec S) (content : String → List ℕ) : Type 0 where
  -- what is left in a pipe
  pub left : ℕ → S → List ℕ
  pub cat :
      (args : List String) (api cid : String) (n p : ℕ) (s : S)
      → IsCat args api cid n
      → n < 2 ^ 63
      → let (c, s1) = x.command args s in
        let (pipe, s2) = x.stdout_pipe c s1 in
        let (started, s3) = x.start c s2 in
        pipe ≡ ok p → started ≡ ok tt → left p s3 ≡ drop n (content cid)
  pub read_pipe :
      (p n : ℕ) (s : S) (bytes : List ℕ)
      → (x.read_pipe p n s).0 ≡ ok bytes
      → (left p s ≡ bytes ++ left p (x.read_pipe p n s).1) × (length bytes ≤ n)

-- A call to make, and the results of some calls, one after the other on one reader.
pub data Op : Type 0 where
  read : ℕ → Op
  seek : ℤ → Whence → Op
  close : Op

-- The offset is an int64.
abbrev pub InRange : Op → Type 0
InRange (read n) = Unit
InRange (seek offset whence) = IsInt64 offset
InRange close = Unit

module _ {S : Type 0} (x : Exec S) where
  unfoldable pub perform : Op → Reader → S → Did × Reader × S
  perform (read n) r s = let (e, r', s') = Ipfs.read x n r s in (did_read n e, r', s')
  perform (seek offset whence) r s =
      let (e, r', s') = Ipfs.seek x offset whence r s in (did_seek offset whence e, r', s')
  perform close r s = let (e, r', s') = Ipfs.close x r s in (did_close e, r', s')

  unfoldable pub history : List Op → Reader → S → List Did
  unfolding perform
  history [] r s = []
  history (op ∷ ops) r s = let (d, r', s') = perform op r s in d ∷ history ops r' s'
