-- ===== src/Base/Decimal.antt =====
-- Go's `%d` and `%02d` on a number that is not negative.
use xlgo_core.Base.{
  ℕ, zero, suc, ◌+◌, ◌/◌, ◌%◌, ◌≡◌, refl, [], ◌∷◌, ◌++◌, true, false, ltb, if◌then◌else◌, ◌==◌,
  ==_iff, lt→ltb, All, Bool-cases, inl, inr, arith,
}
use xlgo_core.Base.Text.Laws.{All-append}
use xlgo_core.Base.Atoi.{is_digit}
use xlgo_core.Base.Text.{Text, codes, contains_rune}

-- One step for each digit; as many as the number says are enough.
unfoldable pub decimal_from : ℕ → ℕ → Text
decimal_from zero n = []
decimal_from (suc fuel) n = elim (ltb n 10) [
  | true ↦ (b'0' + n) ∷ []
  | false ↦ decimal_from fuel (n / 10) ++ (b'0' + n % 10) ∷ []
]

unfoldable pub decimal : ℕ → Text
unfolding decimal_from
decimal n = decimal_from (suc n) n

-- `%02d`
unfoldable pub two_digits : ℕ → Text
unfolding decimal
two_digits n = if ltb n 10 then b'0' ∷ decimal n else decimal n

decimal_tests :
    (decimal 2024 ≡ codes "2024") × (decimal 0 ≡ codes "0") × (two_digits 7 ≡ codes "07")
unfolding decimal two_digits
decimal_tests = (refl, refl, refl)

digit_low : (n : ℕ) → ltb n 10 ≡ true → is_digit (b'0' + n) ≡ true
unfolding is_digit
digit_low n h = ground arith

digit_rest : (n : ℕ) → is_digit (b'0' + n % 10) ≡ true
unfolding is_digit
digit_rest n = digit_low (n % 10) (lt→ltb (n % 10) 10 (omega arith))

decimal_from-All : (fuel n : ℕ) → All (λ c. is_digit c ≡ true) (decimal_from fuel n)
unfolding decimal_from
decimal_from-All zero n = tt
decimal_from-All (suc fuel) n = elim (Bool-cases (ltb n 10)) [
  | inl low ↦ rw (All, low) (digit_low n low, tt)
  | inr high ↦
      rw (All, high)
        (All-append (λ c. is_digit c ≡ true) (decimal_from fuel (n / 10)) _
          (decimal_from-All fuel (n / 10)) (digit_rest n, tt))
]

-- Only digits are printed.
pub decimal-All : (n : ℕ) → All (λ c. is_digit c ≡ true) (decimal n)
unfolding decimal
decimal-All n = decimal_from-All (suc n) n

pub two_digits-All : (n : ℕ) → All (λ c. is_digit c ≡ true) (two_digits n)
unfolding two_digits is_digit
two_digits-All n = elim (Bool-cases (ltb n 10)) [
  | inl low ↦ rw low (refl, decimal-All n)
  | inr high ↦ rw high (decimal-All n)
]

pub digits-without :
    (c : ℕ) (s : Text)
    → is_digit c ≡ false
    → All (λ d. is_digit d ≡ true) s
    → contains_rune s c ≡ false
unfolding contains_rune
digits-without c [] h k = refl
digits-without c (d ∷ s) h (p, k) = elim (Bool-cases (d == c)) [
  | inl same ↦ absurd (cc (rw ((==_iff d c).0 same) at p))
  | inr other ↦ rw other (digits-without c s h k)
]
