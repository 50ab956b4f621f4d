-- ===== src/Base/Atoi.antt =====
-- Go's `strconv.Atoi` on a 64-bit machine: an optional sign and decimal digits, within an `int`.
use xlgo_core.Base.{
  ℕ, ◌+◌, ◌-◌, ◌*◌, ◌^◌, ◌≡◌, refl, [], ◌∷◌, Bool, ◌&&◌, Option, none, some, leb, ◌==◌,
  if◌then◌else◌,
}
use xlgo_core.Base.Text.{Text, codes}
use xlgo_core.Base.Int.{ℤ, pos, negsuc}

unfoldable pub is_digit : ℕ → Bool
is_digit c = leb b'0' c && leb c b'9'

unfoldable pub digits_from : ℕ → Text → Option ℕ
unfolding is_digit
digits_from n [] = some n
digits_from n (c ∷ s) = if is_digit c then digits_from (n * 10 + (c - b'0')) s else none

-- `none` on an empty text
unfoldable pub unsigned : Text → Option ℕ
unfolding digits_from
unsigned [] = none
unsigned (c ∷ s) = digits_from 0 (c ∷ s)

abbrev pub int_max : ℕ
int_max = 2 ^ 63 - 1

minus : ℕ → ℤ
minus n = if n == 0 then pos 0 else negsuc (n - 1)

abbrev positive : Option ℕ → Option ℤ
positive none = none
positive (some n) = if leb n int_max then some (pos n) else none

negative : Option ℕ → Option ℤ
unfolding minus
negative none = none
negative (some n) = if leb n (2 ^ 63) then some (minus n) else none

unfoldable pub atoi : Text → Option ℤ
unfolding unsigned negative
atoi [] = none
atoi (c ∷ s) =
    if c == b'-'
    then negative (unsigned s)
    else if c == b'+'
    then positive (unsigned s)
    else positive (unsigned (c ∷ s))

atoi_tests :
    (atoi (codes "42") ≡ some (pos 42))
    × (atoi (codes "-7") ≡ some (negsuc 6))
    × (atoi (codes "+3") ≡ some (pos 3))
    × (atoi (codes "4x") ≡ none)
    × (atoi [] ≡ none)
    × (atoi (codes "9223372036854775808") ≡ none)
unfolding atoi
atoi_tests = (refl, refl, refl, refl, refl, refl)
