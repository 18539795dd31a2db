-- ===== src/Ipfs/Refinement.antt =====
-- The reader implements its specification.
use mathlib.Core.Path.{subst}
use sgtm.Common.{
  ℕ, ◌≡◌, refl, sym, ap, ◌∙◌, ◌⊎◌, inl, inr, Option, none, some, String, List, [], ◌∷◌, ◌++◌, drop,
  arith, All,
}
use sgtm.Common.Int.{ℤ, pos, pos_part, ◌+ℤ◌}
use sgtm.Common.Decimal.{IsInt64}
use sgtm.Db.{Result, ok, err, panic}
use sgtm.Ipfs
use sgtm.Ipfs.{
  Reader, Exec, Whence, seek_start, seek_current, seek_end, unknown, cat_args, api_args, move,
  ensure_from, ensure_pipe_open, open_pipe, piped, read_from, opened, ipfs_cat,
}
use sgtm.Ipfs.Laws.{
  Closes, Sought, at, failed_at, crashed, Keeps, read-Keeps, seek-Sought, close-Closes,
}
use sgtm.Ipfs.Opening.{int64-IsInt64, Took, first-Took, opened-Took}
use sgtm.Ipfs.Stream.{
  Rest, idle, reading, lost, Position, Did, did_read, did_seek, did_close, target, Allowed,
  read_first, read_on, read_astray, read_failed, seek_done, seek_failed, close_done, close_failed,
  Panics, Follows, Cats, Op, InRange, perform, history,
}

module _ {S : Type 0} (x : Exec S) (content : String → List ℕ) (law : Cats x content) where
  -- The reader is at a position of the file.
  abbrev Holds : Rest → Option ℕ → S → Type 0
  Holds idle pipe s = pipe ≡ none
  Holds (reading now) pipe s = (p : ℕ) × (pipe ≡ some p) × (law.left p s ≡ now)
  Holds lost pipe s = Unit

  module _ (file : String) (bytes_in_all : ℤ) where
    record Tracks (a : Position) (r : Reader) (s : S) : Type 0 where
      offset : r.offset ≡ a.offset
      size : r.size ≡ bytes_in_all
      cid : r.cid ≡ file
      range : IsInt64 a.offset
      rest : Holds a.rest r.pipe s

    -- What a call does to a position.
    abbrev Leads : Position → Did → Reader → S → Type 0
    Leads a d r s =
        Panics d ⊎ ((b : Position) × Allowed (content file) bytes_in_all a d b × Tracks b r s)

    -- A call that moves nothing but the rest.
    kept :
        (a : Position) (rest : Rest) (r : Reader) (s : S) (r' : Reader) (s' : S)
        → Tracks a r s
        → r'.offset ≡ r.offset
        → r'.size ≡ r.size
        → r'.cid ≡ r.cid
        → Holds rest r'.pipe s'
        → Tracks (record a { rest = rest }) r' s'
    kept a rest r s r' s' h offset size cid holds = record {
      offset = offset ∙ h.offset;
      size = size ∙ h.size;
      cid = cid ∙ h.cid;
      range = h.range;
      rest = holds;
    }

    astray :
        (a : Position) (r : Reader) (s : S) (r' : Reader) (s' : S)
        → Tracks a r s
        → Keeps r r'
        → Tracks (record a { rest = lost }) r' s'
    astray a r s r' s' h k = kept a lost r s r' s' h k.offset k.size k.cid tt

    -- A read that gave some bytes, by what was left before.
    bytes-Leads :
        (o : ℤ) (rest : Rest) (n : ℕ) (bytes : List ℕ) (r : Reader) (s : S) (r' : Reader) (s' : S)
        → Tracks (record { offset = o; rest = rest }) r s
        → Keeps r r'
        → (r.pipe ≡ none
            → Took x content law (drop (pos_part r.offset) (content r.cid)) n bytes r'.pipe s')
        → ((p : ℕ) → r.pipe ≡ some p → Took x content law (law.left p s) n bytes r'.pipe s')
        → Leads (record { offset = o; rest = rest }) (did_read n (ok bytes)) r' s'
    bytes-Leads o idle n bytes r s r' s' h k first more =
        let (p, open_now, same, fits) = first h.rest in
        let here : drop (pos_part o) (content file) ≡ bytes ++ law.left p s' =
          subst (λ (c : String). drop (pos_part o) (content c) ≡ bytes ++ law.left p s') h.cid
            (subst (λ (i : ℤ). drop (pos_part i) (content r.cid) ≡ bytes ++ law.left p s') h.offset
              same) in
        inr (
          record { offset = o; rest = reading (law.left p s') },
          read_first here fits,
          kept _ (reading (law.left p s')) r s r' s' h k.offset k.size k.cid (p, open_now, refl),
        )
    bytes-Leads o (reading now) n bytes r s r' s' h k first more =
        let (q, open_before, left_before) = h.rest in
        let (p, open_now, same, fits) = more q open_before in
        inr (
          record { offset = o; rest = reading (law.left p s') },
          read_on (sym left_before ∙ same) fits,
          kept _ (reading (law.left p s')) r s r' s' h k.offset k.size k.cid (p, open_now, refl),
        )
    bytes-Leads o lost n bytes r s r' s' h k first more =
        inr (_, read_astray, astray _ r s r' s' h k)

    read-Leads :
        (a : Position) (n : ℕ) (r : Reader) (s : S)
        → Tracks a r s
        → let (e, r', s') = Ipfs.read x n r s in Leads a (did_read n e) r' s'
    unfolding Ipfs.read ensure_pipe_open
    read-Leads a n r s h = by_result (Ipfs.read x n r s).0 refl
      where
        by_result :
            (e : Result (List ℕ))
            → (Ipfs.read x n r s).0 ≡ e
            → Leads a (did_read n e) (Ipfs.read x n r s).1 (Ipfs.read x n r s).2
        by_result (ok bytes) e =
            bytes-Leads a.offset a.rest n bytes r s _ _ h (read-Keeps x n r s)
              (λ closed.
                first-Took x content law n r.pipe r s bytes closed
                  (subst IsInt64 (sym h.offset) h.range) e)
              (λ p open_before. opened-Took x content law n r.pipe p r s bytes open_before refl e)
        by_result (err failure) e = inr (_, read_failed, astray a r s _ _ h (read-Keeps x n r s))
        by_result panic e = inl refl

    target-same :
        (r : Reader) (o k : ℤ) (whence : Whence)
        → r.offset ≡ o
        → r.size ≡ bytes_in_all
        → target r.size r.offset k whence ≡ target bytes_in_all o k whence
    target-same r o k whence e f =
        ap (λ (i : ℤ). target i r.offset k whence) f
        ∙ ap (λ (i : ℤ). target bytes_in_all i k whence) e

    target-IsInt64 :
        (o k : ℤ) (whence : Whence)
        → IsInt64 o
        → IsInt64 k
        → IsInt64 (target bytes_in_all o k whence)
    target-IsInt64 o k seek_start h i = i
    target-IsInt64 o k seek_current h i = int64-IsInt64 (o +ℤ k)
    target-IsInt64 o k seek_end h i = int64-IsInt64 (bytes_in_all +ℤ k)
    target-IsInt64 o k unknown h i = h

    Sought-Leads :
        (a : Position) (k : ℤ) (whence : Whence) (r : Reader) (s : S) (e : Result ℤ) (r' : Reader)
        (s' : S)
        → Tracks a r s
        → IsInt64 k
        → Sought r k whence e r'
        → Leads a (did_seek k whence e) r' s'
    Sought-Leads a k whence r s e r' s' h range (at closed moved size cid) =
        let same = target-same r a.offset k whence h.offset h.size in
        subst (λ (m : ℤ). Leads a (did_seek k whence (ok m)) r' s') (sym same)
          (inr (
            record { offset = target bytes_in_all a.offset k whence; rest = idle },
            seek_done,
            record {
              offset = moved ∙ same;
              size = size ∙ h.size;
              cid = cid ∙ h.cid;
              range = target-IsInt64 a.offset k whence h.range range;
              rest = closed.pipe;
            },
          ))
    Sought-Leads a k whence r s e r' s' h range (failed_at offset size cid openable) =
        inr (_, seek_failed, kept _ lost r s r' s' h offset size cid tt)
    Sought-Leads a k whence r s e r' s' h range crashed = inl refl

    Closes-Leads :
        (a : Position) (r : Reader) (s : S) (e : Result (Unit {0})) (r' : Reader) (s' : S)
        → Tracks a r s
        → Closes r e r'
        → Leads a (did_close e) r' s'
    Closes-Leads a r s (ok tt) r' s' h k = inr (
      record a { rest = idle },
      close_done,
      kept _ idle r s r' s' h k.offset k.size k.cid (k.closed refl).pipe,
    )
    Closes-Leads a r s (err e) r' s' h k =
        inr
          (record a { rest = lost }, close_failed, kept _ lost r s r' s' h k.offset k.size k.cid tt)
    Closes-Leads a r s panic r' s' h k = inl refl

    perform-Leads :
        (a : Position) (op : Op) (r : Reader) (s : S)
        → InRange op
        → Tracks a r s
        → let (d, r', s') = perform x op r s in Leads a d r' s'
    unfolding perform
    perform-Leads a (Op.read n) r s range h = read-Leads a n r s h
    perform-Leads a (Op.seek k whence) r s range h =
        Sought-Leads a k whence r s _ _ _ h range (seek-Sought x k whence r s)
    perform-Leads a Op.close r s range h = Closes-Leads a r s _ _ _ h (close-Closes x r s)

    history-Tracks :
        (ops : List Op) (a : Position) (r : Reader) (s : S)
        → All InRange ops
        → Tracks a r s
        → Follows (content file) bytes_in_all a (history x ops r s)
    unfolding history
    history-Tracks [] a r s range h = tt
    history-Tracks (op ∷ ops) a r s range h =
        by_call (perform-Leads a op r s range.0 h) (λ b k. history-Tracks ops b _ _ range.1 k)
      where
        by_call :
            Leads a (perform x op r s).0 (perform x op r s).1 (perform x op r s).2
            → ((b : Position)
                → Tracks b (perform x op r s).1 (perform x op r s).2
                → Follows
                    (content file)
                    bytes_in_all
                    b
                    (history x ops (perform x op r s).1 (perform x op r s).2))
            → Follows
                (content file)
                bytes_in_all
                a
                ((perform x op r s).0 ∷ history x ops (perform x op r s).1 (perform x op r s).2)
        by_call (inl panics) rest = inl panics
        by_call (inr (b, allowed, k)) rest = inr (b, allowed, rest b k)

  -- Over processes that meet `Cats`, and up to the first panic, a new reader of a file follows the
  -- specification through any reads, seeks by int64 offsets and closes, failing ones included:
  -- behind a seek or a close, and at first, successful reads give the file from the offset of the
  -- last successful seek on (or from its begin), each one the next bytes and no more than its
  -- buffer holds, until a call fails; behind a failed call only the offset is known, until a seek
  -- or a close succeeds; and a seek that succeeds answers its offset counted from the start, from
  -- where the last seek went, or from the size.
  pub history-Follows :
      (api cid : String) (size : ℤ) (ops : List Op) (s : S)
      → All InRange ops
      → Follows
          (content cid)
          size
          (record { offset = pos 0; rest = idle })
          (history x ops (ipfs_cat api cid size) s)
  unfolding ipfs_cat
  history-Follows api cid size ops s range =
      history-Tracks cid size ops _ _ s range
        (record { offset = refl; size = refl; cid = refl; range = omega arith; rest = refl })
