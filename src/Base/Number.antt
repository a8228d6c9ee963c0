-- ===== src/Base/Number.antt =====
-- Python's `int` of an untyped argument, over ASCII: the values that a caller may pass, and the
-- conversion behind the pattern `[+-]?\d+`.
use Prim.Native.Nat.{ℕ, zero, suc, ◌+◌, ◌-◌, ◌*◌}
use Prim.Native.Char.{code}
use Prim.Native.String.{String}
use mathlib.Core.Bool.{Bool, ◌&&◌}
use mathlib.Core.Option.{Option, none, some}
use simple_coding_agent.Base.Tests.{leb, ◌==◌, if◌then◌else◌}
use simple_coding_agent.Base.Text.{strip}

pub data ℤ : Type 0 where
  pos : ℕ → ℤ
  negsuc : ℕ → ℤ

-- A value of the dynamic language, as far as the validators tell values apart.
pub data PyValue : Type 0 where
  boolean : Bool → PyValue
  integer : ℤ → PyValue
  text : String → PyValue
  other : PyValue

-- The digits of a text, read after those already read; `none` at a character that is none.
unfoldable pub read_digits : ℕ → String → Option ℕ
read_digits n String.[] = some n
read_digits n (String.◌∷◌ c s) =
    let rest = read_digits (n * 10 + (code c - 48)) s in
    if leb 48 (code c) && leb (code c) 57 then rest else none

-- `\d+`: at least one digit.
unfoldable pub read_natural : String → Option ℕ
unfolding read_digits
read_natural String.[] = none
read_natural (String.◌∷◌ c s) = read_digits 0 (String.◌∷◌ c s)

unfoldable pub negate : Option ℕ → Option ℤ
negate none = none
negate (some zero) = some (pos zero)
negate (some (suc n)) = some (negsuc n)

unfoldable pub as_positive : Option ℕ → Option ℤ
as_positive none = none
as_positive (some n) = some (pos n)

-- `re.fullmatch(r"[+-]?\d+", s)`, then `int(s, 10)`
unfoldable pub read_integer : String → Option ℤ
unfolding read_natural negate as_positive
read_integer String.[] = none
read_integer (String.◌∷◌ c s) =
    if code c == 43
    then as_positive (read_natural s)
    else if code c == 45
    then negate (read_natural s)
    else as_positive (read_natural (String.◌∷◌ c s))

-- The common part of `parse_stop_after` and `parse_next_issue`: booleans and other types are
-- refused, texts are stripped and converted.
unfoldable pub integer_of : PyValue → Option ℤ
unfolding strip read_integer
integer_of (boolean b) = none
integer_of (integer n) = some n
integer_of (text s) = read_integer (strip s)
integer_of other = none

-- The number if it is at least 1.
unfoldable pub positive : ℤ → Option ℕ
positive (pos zero) = none
positive (pos (suc n)) = some (suc n)
positive (negsuc n) = none
