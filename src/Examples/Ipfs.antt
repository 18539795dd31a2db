-- ===== src/Examples/Ipfs.antt =====
-- A reader that is read, moved and closed.
use mathlib.Core.Path.{subst}
use sgtm.Common.{
  ℕ, zero, suc, ◌<◌, ◌≤◌, ◌^◌, ◌≡◌, refl, ap, inl, inr, Bool, true, false, Option, none, some,
  String, List, [], ◌∷◌, ◌++◌, length, drop, str_eq, if◌then◌else◌, arith,
}
use sgtm.Common.Int.{ℤ, pos, pos_part, int64, ◌+ℤ◌}
use sgtm.Common.Decimal.{format_int, parse_int, parse_int-format_int}
use sgtm.Db.{Result, ok, err, failed, ok_inj}
use sgtm.Ipfs.{Reader, Exec, seek_start, seek_current, ipfs_cat, cat_args, close, seek, read}
use sgtm.Ipfs.Stream.{idle, did_read, did_seek, did_close, Follows, IsCat, Cats, Op, history}
use sgtm.Ipfs.Refinement.{history-Follows}
use sgtm.Ipfs.Laws.{Closes, Sought, close-Closes, seek-Sought}

-- Commands count up, and each pipe gives zeros.
abbrev runner : Exec ℕ
runner = record {
  command = λ args n. (n, suc n);
  stdout_pipe = λ c n. (ok c, n);
  start = λ c n. (ok tt, n);
  close_pipe = λ p n. (ok tt, n);
  wait = λ c n. (ok tt, n);
  read_pipe = λ p size n. (ok (0 ∷ []), n);
}

abbrev opened : Reader
opened = record (ipfs_cat "" "Qm1" (pos 100)) { cmd = some 0; pipe = some 0; offset = pos 10 }

close-Closes_example : Closes opened (close runner opened 1).0 (close runner opened 1).1
close-Closes_example = close-Closes runner opened 1

seek-Sought_example :
    Sought opened
      (pos 5)
      seek_current
      (seek runner (pos 5) seek_current opened 1).0
      (seek runner (pos 5) seek_current opened 1).1
seek-Sought_example = seek-Sought runner (pos 5) seek_current opened 1

-- The one file, and a run whose state is what its last command has left to give, byte by byte.
abbrev file : String → List ℕ
file cid = 1 ∷ 2 ∷ 3 ∷ 4 ∷ 5 ∷ []

abbrev number_of : Option ℤ → ℕ
number_of none = 0
number_of (some n) = pos_part n

abbrev offset_in : List String → ℕ
offset_in [] = 0
offset_in (flag ∷ []) = 0
offset_in (flag ∷ value ∷ []) = if str_eq flag "--offset" then number_of (parse_int value) else 0
offset_in (first ∷ second ∷ third ∷ more) = offset_in (second ∷ third ∷ more)

abbrev one_byte : ℕ → List ℕ → Result (List ℕ) × List ℕ
one_byte n [] = (err (failed "EOF"), [])
one_byte zero (b ∷ more) = (ok [], b ∷ more)
one_byte (suc n) (b ∷ more) = (ok (b ∷ []), more)

abbrev ipfs_program : Exec (List ℕ)
ipfs_program = record {
  command = λ args s. (0, drop (offset_in args) (file ""));
  stdout_pipe = λ c s. (ok c, s);
  start = λ c s. (ok tt, s);
  close_pipe = λ p s. (ok tt, s);
  wait = λ c s. (ok tt, s);
  read_pipe = λ p n s. one_byte n s;
}

offset_in-IsCat :
    (args : List String) (api cid : String) (n : ℕ)
    → IsCat args api cid n
    → n < 2 ^ 63
    → offset_in args ≡ n
offset_in-IsCat args api cid n (inl (same, at_begin)) h = by_api (str_eq api "") args same
  where
    by_api :
        (b : Bool) (args : List String)
        → args ≡ (if b then [] else "--api" ∷ api ∷ []) ++ ("cat" ∷ cid ∷ [])
        → offset_in args ≡ n
    by_api true args same = rw (same, at_begin) refl
    by_api false args same = rw (same, at_begin) refl
offset_in-IsCat args api cid n (inr same) h = by_api (str_eq api "") args same
  where
    by_api :
        (b : Bool) (args : List String)
        → args
          ≡ (if b then [] else "--api" ∷ api ∷ [])
            ++ ("cat" ∷ cid ∷ "--offset" ∷ format_int (pos n) ∷ [])
        → offset_in args ≡ n
    by_api true args same = rw (same, parse_int-format_int (pos n) h) refl
    by_api false args same = rw (same, parse_int-format_int (pos n) h) refl

one_byte-front :
    (n : ℕ) (s bytes : List ℕ)
    → (one_byte n s).0 ≡ ok bytes
    → (s ≡ bytes ++ (one_byte n s).1) × (length bytes ≤ n)
one_byte-front n [] bytes e = cc
one_byte-front zero (b ∷ more) bytes e =
    subst (λ (l : List ℕ). (b ∷ more ≡ l ++ (b ∷ more)) × (length l ≤ 0)) (ok_inj e)
      (refl, omega arith)
one_byte-front (suc n) (b ∷ more) bytes e =
    subst (λ (l : List ℕ). (b ∷ more ≡ l ++ more) × (length l ≤ suc n)) (ok_inj e)
      (refl, omega arith)

ipfs_program-Cats : Cats ipfs_program file
ipfs_program-Cats = record {
  left = λ p s. s;
  cat = λ args api cid n p s named h e d.
      ap (λ (i : ℕ). drop i (file "")) (offset_in-IsCat args api cid n named h);
  read_pipe = λ p n s bytes e. one_byte-front n s bytes e;
}

-- Two bytes, a seek by one from where the first seek went, and one more byte.
abbrev seeks_and_reads : List Op
seeks_and_reads =
    Op.seek (pos 1) seek_start
    ∷ Op.read 8
    ∷ Op.read 8
    ∷ Op.seek (pos 1) seek_current
    ∷ Op.read 8
    ∷ Op.close
    ∷ []

seeks_and_reads_done :
    history ipfs_program seeks_and_reads (ipfs_cat "" "Qm1" (pos 5)) []
    ≡ did_seek (pos 1) seek_start (ok (pos 1))
      ∷ did_read 8 (ok (2 ∷ []))
      ∷ did_read 8 (ok (3 ∷ []))
      ∷ did_seek (pos 1) seek_current (ok (pos 2))
      ∷ did_read 8 (ok (3 ∷ []))
      ∷ did_close (ok tt)
      ∷ []
unfolding history ipfs_cat read seek close cat_args int64 ◌+ℤ◌ parse_int format_int
seeks_and_reads_done = refl

history-Follows_example :
    Follows
      (file "Qm1")
      (pos 5)
      (record { offset = pos 0; rest = idle })
      (history ipfs_program seeks_and_reads (ipfs_cat "" "Qm1" (pos 5)) [])
history-Follows_example =
    history-Follows ipfs_program file ipfs_program-Cats "" "Qm1" (pos 5) seeks_and_reads []
      (omega arith, (tt, (tt, (omega arith, (tt, (tt, tt))))))
