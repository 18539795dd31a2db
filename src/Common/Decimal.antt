-- ===== src/Common/Decimal.antt =====
-- `%d` of an int64 and `strconv.ParseInt(s, 10, 64)`.
use Prim.Native.Char.{Char, code}
use Prim.Native.Nat.{ℕ, suc, zero, ◌-◌, ◌+◌, ◌*◌, ◌<◌, ◌/◌, ◌%◌, ◌^◌}
use Prim.Native.String.{String, [], ◌∷◌}
use mathlib.Core.Path.{◌≡◌, refl, ap, ◌∙◌}
use mathlib.Core.Logic.{inl, inr}
use mathlib.Core.Bool.{false, ◌&&◌}
use mathlib.Core.Option.{Option, none, some}
use native.Mathlib.Omega.{arith}
use text.Mathlib.TextLemmas.{nil-append, cons-append}
use sgtm.Common.Tests.{◌==◌, ltb, leb, if◌then◌else◌, Bool-cases}
use sgtm.Common.Int.{ℤ, pos, negsuc}
use sgtm.Common.Text.{◌<>◌, is_empty}

digit : ℕ → Char
digit zero = "0"
digit (suc zero) = "1"
digit (suc (suc zero)) = "2"
digit (suc (suc (suc zero))) = "3"
digit (suc (suc (suc (suc zero)))) = "4"
digit (suc (suc (suc (suc (suc zero))))) = "5"
digit (suc (suc (suc (suc (suc (suc zero)))))) = "6"
digit (suc (suc (suc (suc (suc (suc (suc zero))))))) = "7"
digit (suc (suc (suc (suc (suc (suc (suc (suc zero)))))))) = "8"
digit d = "9"

code-digit : (d : ℕ) → d < 10 → code (digit d) ≡ 48 + d
unfolding digit
code-digit zero h = refl
code-digit (suc zero) h = refl
code-digit (suc (suc zero)) h = refl
code-digit (suc (suc (suc zero))) h = refl
code-digit (suc (suc (suc (suc zero)))) h = refl
code-digit (suc (suc (suc (suc (suc zero))))) h = refl
code-digit (suc (suc (suc (suc (suc (suc zero)))))) h = refl
code-digit (suc (suc (suc (suc (suc (suc (suc zero))))))) h = refl
code-digit (suc (suc (suc (suc (suc (suc (suc (suc zero)))))))) h = refl
code-digit (suc (suc (suc (suc (suc (suc (suc (suc (suc zero))))))))) h = refl
code-digit (suc (suc (suc (suc (suc (suc (suc (suc (suc (suc d)))))))))) h = absurd (omega arith)

-- The digits of `n`, with fuel above `n`.
digits : ℕ → ℕ → String
digits zero n = ""
digits (suc fuel) n =
    let front = digits fuel (n / 10) in
    let last : String = digit (n % 10) ∷ "" in if ltb n 10 then last else front <> last

format_nat : ℕ → String
unfolding digits digit
format_nat n = digits (suc n) n

-- `fmt.Sprintf("%d", n)`
unfoldable pub format_int : ℤ → String
unfolding format_nat
format_int (pos n) = format_nat n
format_int (negsuc n) = "-" ∷ format_nat (suc n)

-- The value of a text of digits read from the left, behind `acc`.
read_digits : ℕ → String → Option ℕ
read_digits acc [] = some acc
read_digits acc (c ∷ s) =
    if leb 48 (code c) && leb (code c) 57 then read_digits (acc * 10 + (code c - 48)) s else none

abbrev above_zero : ℕ → Option ℤ
above_zero n = if ltb n (2 ^ 63) then some (pos n) else none

abbrev below_zero : ℕ → Option ℤ
below_zero zero = some (pos 0)
below_zero (suc n) = if ltb n (2 ^ 63) then some (negsuc n) else none

abbrev then_int : Option ℕ → (ℕ → Option ℤ) → Option ℤ
then_int none f = none
then_int (some n) f = f n

-- `strconv.ParseInt(s, 10, 64)`, `none` for an error of syntax or range
unfoldable pub parse_int : String → Option ℤ
unfolding read_digits
parse_int [] = none
parse_int (c ∷ s) =
    if code c == b'-'
    then (if is_empty s then none else then_int (read_digits 0 s) below_zero)
    else if code c == b'+'
    then (if is_empty s then none else then_int (read_digits 0 s) above_zero)
    else then_int (read_digits 0 (c ∷ s)) above_zero

abbrev below : ℕ → ℕ → Option ℕ
below limit n = if ltb n limit then some n else none

abbrev then_nat : Option ℕ → (ℕ → Option ℕ) → Option ℕ
then_nat none f = none
then_nat (some n) f = f n

-- `strconv.ParseUint(s, 10, 64)`
unfoldable pub parse_uint : String → Option ℕ
unfolding read_digits
parse_uint s = if is_empty s then none else then_nat (read_digits 0 s) (below (2 ^ 64))

round_numbers : parse_int (format_int (pos 120)) ≡ some (pos 120)
unfolding parse_int format_int
round_numbers = refl

read_digits-digit : (n d : ℕ) → d < 10 → read_digits n (digit d ∷ "") ≡ some (n * 10 + d)
unfolding read_digits
read_digits-digit n d small = ground (arith, code-digit d small)

read_digits-append_digit :
    (acc d n : ℕ) (s : String)
    → d < 10
    → read_digits acc s ≡ some n
    → read_digits acc (s <> (digit d ∷ "")) ≡ some (n * 10 + d)
unfolding read_digits
read_digits-append_digit acc d n [] small h =
    rw (nil-append (digit d ∷ "")) (ground (arith, read_digits-digit acc d small))
read_digits-append_digit acc d n (c ∷ s) small h =
    rw (cons-append c s (digit d ∷ ""))
      (ground (arith, read_digits-append_digit (acc * 10 + (code c - 48)) d n s small))

read_digits-digits : (fuel n : ℕ) → n < fuel → read_digits 0 (digits fuel n) ≡ some n
unfolding digits
read_digits-digits zero n h = elim h [ ]
read_digits-digits (suc fuel) n h = elim (Bool-cases (ltb n 10)) [
  | inl small ↦ rw small (ground (arith, read_digits-digit 0 (n % 10)))
  | inr large ↦ rw large (
      read_digits-append_digit 0 (n % 10) (n / 10) (digits fuel (n / 10)) (omega arith)
        (read_digits-digits fuel (n / 10) (ground arith))
      ∙ ap some (omega arith))
]

append_cons-not_empty : (s t : String) (c : Char) → is_empty (s <> (c ∷ t)) ≡ false
append_cons-not_empty [] t c = rw (nil-append (c ∷ t)) refl
append_cons-not_empty (d ∷ s) t c = rw (cons-append d s (c ∷ t)) refl

format_nat-not_empty : (n : ℕ) → is_empty (format_nat n) ≡ false
unfolding format_nat
format_nat-not_empty n = elim (Bool-cases (ltb n 10)) [
  | inl small ↦ rw small refl
  | inr large ↦ rw large (append_cons-not_empty (digits n (n / 10)) "" (digit (n % 10)))
]

parse_int-unsigned :
    (s : String) (n : ℕ)
    → is_empty s ≡ false
    → read_digits 0 s ≡ some n
    → parse_int s ≡ above_zero n
unfolding parse_int
parse_int-unsigned [] n full h = cc
parse_int-unsigned (c ∷ s) n full h = ground arith

parse_int-minus :
    (s : String) (n : ℕ)
    → is_empty s ≡ false
    → read_digits 0 s ≡ some n
    → parse_int ("-" ∷ s) ≡ below_zero n
unfolding parse_int
parse_int-minus s n full h = ground arith

-- The values of an int64.
abbrev pub IsInt64 : ℤ → Type 0
IsInt64 (pos n) = n < 2 ^ 63
IsInt64 (negsuc n) = n < 2 ^ 63

-- A printed int64 is read back as itself.
pub parse_int-format_int : (a : ℤ) → IsInt64 a → parse_int (format_int a) ≡ some a
unfolding format_int
parse_int-format_int (pos n) h =
    parse_int-unsigned (format_nat n) n (format_nat-not_empty n)
      (read_digits-digits (suc n) n (omega arith))
    ∙ ground arith
parse_int-format_int (negsuc n) h =
    parse_int-minus (format_nat (suc n)) (suc n) (format_nat-not_empty (suc n))
      (read_digits-digits (suc (suc n)) (suc n) (omega arith))
    ∙ ground arith
