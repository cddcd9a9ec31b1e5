-- ===== src/Schema/Issue/Digits.antt =====
-- The digits of a number, as messages print it, are read back as the number.
use quick_api.Base.{
  ℕ, suc, zero, ◌+◌, ◌-◌, ◌*◌, ◌/◌, ◌%◌, ◌<◌, ◌≤◌, Text, [], ◌∷◌, ◌++◌, ◌≡◌, refl, arith,
  Bool-cases, ltb, inl, inr,
}
use quick_api.Schema.Issue.{digits, shown_number}

-- The number that decimal digits say.
unfoldable pub read_from : ℕ → Text → ℕ
read_from n [] = n
read_from n (c ∷ s) = read_from (n * 10 + (c - b'0')) s

read_from-append :
    (n : ℕ) (s : Text) (c : ℕ) → read_from n (s ++ c ∷ []) ≡ read_from n s * 10 + (c - b'0')
unfolding read_from
read_from-append n [] c = refl
read_from-append n (d ∷ s) c = read_from-append (n * 10 + (d - b'0')) s c

quotient_remainder : (n : ℕ) → n / 10 * 10 + (b'0' + n % 10 - b'0') ≡ n
quotient_remainder n = omega arith

quotient-lt : (n fuel : ℕ) → n < suc fuel → 10 ≤ n → n / 10 < fuel
quotient-lt n fuel h k = omega (arith, h, k)

read_from-digits : (fuel n : ℕ) → n < fuel → read_from 0 (digits fuel n) ≡ n
unfolding digits read_from
read_from-digits zero n h = absurd (omega (arith, h))
read_from-digits (suc fuel) n h = elim (Bool-cases (ltb n 10)) [
  | inl small ↦ rw (small, digits, read_from) (omega arith)
  | inr big ↦
      rw
        (
          big,
          digits,
          read_from-append,
          read_from-digits fuel (n / 10) (quotient-lt n fuel h (ground (arith, big))),
        )
        (quotient_remainder n)
]

-- Reading the printed number gives the number: the fuel of the printing is enough.
read_from-shown_number : (n : ℕ) → read_from 0 (shown_number n) ≡ n
unfolding shown_number
read_from-shown_number n = read_from-digits (suc n) n (omega arith)
