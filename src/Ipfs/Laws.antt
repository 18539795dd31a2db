-- ===== src/Ipfs/Laws.antt =====
-- The reader between its calls.
use mathlib.Core.Path.{subst}
use sgtm.Common.{sym, ap, ◌≢◌, ◌≡◌, refl, Option, none, some, ℕ}
use sgtm.Common.Int.{ℤ, ◌+ℤ◌, int64}
use sgtm.Db.{Error, Result, ok, err, panic}
use sgtm.Ipfs.Stream.{target}
use sgtm.Ipfs.{
  Reader, Exec, Whence, seek_start, seek_current, seek_end, unknown, locked_close, close,
  close_then, wait_cmd, waited, pipe_closed, sought, piped, opened, move, seek, open_pipe,
  ensure_from, ensure_pipe_open, read_from, read,
}

-- A pipe is open only while its command is kept.
abbrev pub IsOpenable : Option ℕ → Option ℕ → Type 0
IsOpenable cmd none = Unit
IsOpenable none (some p) = ⊥
IsOpenable (some c) (some p) = Unit

pub record IsReader (r : Reader) : Type 0 where
  pub openable : IsOpenable r.cmd r.pipe

-- A reader that runs nothing.
pub record IsClosed (r : Reader) : Type 0 where
  pub cmd : r.cmd ≡ none
  pub pipe : r.pipe ≡ none

-- What a close leaves: all but the command and the pipe; and neither of them, if it succeeds.
pub record Closes (r : Reader) (e : Result (Unit {0})) (r' : Reader) : Type 0 where
  pub offset : r'.offset ≡ r.offset
  pub size : r'.size ≡ r.size
  pub cid : r'.cid ≡ r.cid
  pub openable : IsOpenable r.cmd r.pipe → IsOpenable r'.cmd r'.pipe
  pub closed : e ≡ ok tt → IsClosed r'

-- A close that failed before it changed anything.
failed_close : (r : Reader) (e : Result (Unit {0})) → e ≢ ok tt → Closes r e r
failed_close r e h = record {
  offset = refl;
  size = refl;
  cid = refl;
  openable = λ o. o;
  closed = λ k. absurd (h k);
}

waited-Closes :
    {S : Type 0} (e : Result (Unit {0})) (r : Reader) (s : S)
    → r.pipe ≡ none
    → Closes r (waited e r s).0 (waited e r s).1
unfolding waited
waited-Closes (ok tt) r s p = record {
  offset = refl;
  size = refl;
  cid = refl;
  openable = λ o. subst (IsOpenable none) (sym p) tt;
  closed = λ k. record { cmd = refl; pipe = p };
}
waited-Closes (err e) r s p = failed_close r (err e) (λ k. cc)
waited-Closes panic r s p = failed_close r panic (λ k. cc)

-- What a seek leaves: on success a reader that runs nothing, at the offset that it answers, the
-- target of the specification; else the offset as it was.
pub data Sought (r : Reader) (offset : ℤ) (whence : Whence) : Result ℤ → Reader → Type 0 where
  at :
      {r' : Reader}
      → IsClosed r'
      → r'.offset ≡ target r.size r.offset offset whence
      → r'.size ≡ r.size
      → r'.cid ≡ r.cid
      → Sought r offset whence (ok (target r.size r.offset offset whence)) r'
  failed_at :
      {e : Error} {r' : Reader}
      → r'.offset ≡ r.offset
      → r'.size ≡ r.size
      → r'.cid ≡ r.cid
      → (IsOpenable r.cmd r.pipe → IsOpenable r'.cmd r'.pipe)
      → Sought r offset whence (err e) r'
  crashed : {r' : Reader} → Sought r offset whence panic r'

-- What a read leaves of the reader.
pub record Keeps (r r' : Reader) : Type 0 where
  pub offset : r'.offset ≡ r.offset
  pub size : r'.size ≡ r.size
  pub cid : r'.cid ≡ r.cid
  pub openable : IsOpenable r.cmd r.pipe → IsOpenable r'.cmd r'.pipe

module _ {S : Type 0} (x : Exec S) where
  wait_cmd-Closes :
      (o : Option ℕ) (r : Reader) (s : S)
      → r.cmd ≡ o
      → r.pipe ≡ none
      → Closes r (wait_cmd x o r s).0 (wait_cmd x o r s).1
  unfolding wait_cmd
  wait_cmd-Closes none r s c p = record {
    offset = refl;
    size = refl;
    cid = refl;
    openable = λ h. h;
    closed = λ e. record { cmd = c; pipe = p };
  }
  wait_cmd-Closes (some c) r s e p = waited-Closes (x.wait c s).0 r (x.wait c s).1 p

  pipe_closed-Closes :
      (e : Result (Unit {0})) (r : Reader) (s : S)
      → Closes r (pipe_closed x e r s).0 (pipe_closed x e r s).1
  unfolding pipe_closed
  pipe_closed-Closes (ok done) r s =
      let h = wait_cmd-Closes r.cmd (record r { pipe = none }) s refl refl in
      record {
        offset = h.offset;
        size = h.size;
        cid = h.cid;
        openable = λ o. h.openable tt;
        closed = h.closed;
      }
  pipe_closed-Closes (err e) r s = failed_close r (err e) (λ k. cc)
  pipe_closed-Closes panic r s = failed_close r panic (λ k. cc)

  close_then-Closes :
      (o : Option ℕ) (r : Reader) (s : S)
      → r.pipe ≡ o
      → Closes r (close_then x o r s).0 (close_then x o r s).1
  unfolding close_then
  close_then-Closes none r s p = wait_cmd-Closes r.cmd r s refl p
  close_then-Closes (some p) r s e = pipe_closed-Closes (x.close_pipe p s).0 r (x.close_pipe p s).1

  -- A close keeps the offset, the size and the content id, and that a pipe is open only while a command is kept;
  -- if it succeeds, the reader keeps no command and no pipe.
  pub close-Closes : (r : Reader) (s : S) → Closes r (close x r s).0 (close x r s).1
  unfolding close locked_close
  close-Closes r s = close_then-Closes r.pipe r s refl

  move-target :
      (r r' : Reader) (offset : ℤ) (whence : Whence)
      → r'.offset ≡ r.offset
      → r'.size ≡ r.size
      → move r' offset whence ≡ target r.size r.offset offset whence
  unfolding move
  move-target r r' offset seek_start e f = refl
  move-target r r' offset seek_current e f = ap (λ (o : ℤ). int64 (o +ℤ offset)) e
  move-target r r' offset seek_end e f = ap (λ (o : ℤ). int64 (o +ℤ offset)) f
  move-target r r' offset unknown e f = e

  sought-Sought :
      (r : Reader) (offset : ℤ) (whence : Whence) (e : Result (Unit {0})) (r' : Reader) (s' : S)
      → Closes r e r'
      → Sought r offset whence
          (sought offset whence (e, r', s')).0
          (sought offset whence (e, r', s')).1
  unfolding sought
  sought-Sought r offset whence (ok tt) r' s' h =
      let same = move-target r r' offset whence h.offset h.size in
      let closed = h.closed refl in
      subst
        (λ (o : ℤ). Sought r offset whence (ok o) (record r' { offset = move r' offset whence }))
        (sym same) (at (record { cmd = closed.cmd; pipe = closed.pipe }) same h.size h.cid)
  sought-Sought r offset whence (err e) r' s' h = failed_at h.offset h.size h.cid h.openable
  sought-Sought r offset whence panic r' s' h = crashed

  -- A seek that succeeds answers the new offset, counted from the start, from the offset before or
  -- from the size (any other origin leaves it), and leaves a reader at that offset with the size
  -- and the content id as they were and no command and no pipe; one whose close fails leaves the
  -- offset, the size and the content id as they were, and that a pipe is open only while a command is kept.
  pub seek-Sought :
      (offset : ℤ) (whence : Whence) (r : Reader) (s : S)
      → Sought r offset whence (seek x offset whence r s).0 (seek x offset whence r s).1
  unfolding seek locked_close
  seek-Sought offset whence r s =
      sought-Sought r offset whence (locked_close x r s).0 (locked_close x r s).1
        (locked_close x r s).2 (close_then-Closes r.pipe r s refl)

  piped-Keeps :
      (c : ℕ) (e : Result ℕ) (r : Reader) (s : S) → r.pipe ≡ none → Keeps r (piped x c e r s).1
  unfolding piped
  piped-Keeps c (ok p) r s e = record { offset = refl; size = refl; cid = refl; openable = λ h. tt }
  piped-Keeps c (err f) r s e = record {
    offset = refl;
    size = refl;
    cid = refl;
    openable = λ h. tt;
  }
  piped-Keeps c panic r s e = record {
    offset = refl;
    size = refl;
    cid = refl;
    openable = λ h. subst (IsOpenable (some c)) (sym e) tt;
  }

  ensure_from-Keeps :
      (o : Option ℕ) (r : Reader) (s : S) → r.pipe ≡ o → Keeps r (ensure_from x o r s).1
  unfolding ensure_from open_pipe
  ensure_from-Keeps (some p) r s e = record {
    offset = refl;
    size = refl;
    cid = refl;
    openable = λ h. h;
  }
  ensure_from-Keeps none r s e = piped-Keeps _ _ r _ e

  read_from-same : (n : ℕ) (o : Option ℕ) (r : Reader) (s : S) → (read_from x n o r s).1 ≡ r
  unfolding read_from
  read_from-same n none r s = refl
  read_from-same n (some p) r s = refl

  opened-same : (n : ℕ) (e : Result (Unit {0})) (r : Reader) (s : S) → (opened x n (e, r, s)).1 ≡ r
  unfolding opened
  opened-same n (ok done) r s = read_from-same n r.pipe r s
  opened-same n (err e) r s = refl
  opened-same n panic r s = refl

  -- A read leaves the offset where it was, however many bytes it gives, and the size and the content id,
  -- and that a
  -- pipe is open only while a command is kept.
  pub read-Keeps : (n : ℕ) (r : Reader) (s : S) → Keeps r (read x n r s).1
  unfolding read ensure_pipe_open
  read-Keeps n r s =
      let o = ensure_from x r.pipe r s in
      subst (Keeps r) (sym (opened-same n o.0 o.1 o.2)) (ensure_from-Keeps r.pipe r s refl)
