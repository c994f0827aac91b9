-- ===== src/Validation/Coerce/Dates/Decimal.antt =====
-- Decimal texts of small numbers, digit by digit.
use vault_engine.Base.{
  ℕ, zero, suc, ◌+◌, ◌-◌, ◌/◌, ◌%◌, ◌≤◌, ◌<◌, Text, [], ◌∷◌, ◌≡◌, refl, ◌∙◌, arith,
}
use native.Mathlib.Decide.{dec_lt}
use vault_engine.Validation.Coerce.Dates.{digits_of, decimal, pad_two}

digits_of-small : (f n : ℕ) (acc : Text) → 0 < f → n < 10 → digits_of f n acc ≡ (b'0' + n) ∷ acc
unfolding digits_of
digits_of-small zero n acc pos h = absurd (omega arith)
digits_of-small (suc f) n acc pos h = ground arith

decimal-one : (n : ℕ) → n < 10 → decimal n ≡ (b'0' + n) ∷ []
unfolding decimal
decimal-one n h = digits_of-small (suc n) n [] (omega arith) h

digits_of-step :
    (f n : ℕ) (acc : Text)
    → 0 < f
    → 10 ≤ n
    → digits_of f n acc ≡ digits_of (f - 1) (n / 10) ((b'0' + n % 10) ∷ acc)
unfolding digits_of
digits_of-step zero n acc pos h = absurd (omega arith)
digits_of-step (suc f) n acc pos h = let e : suc f - 1 ≡ f = omega arith in rw e (ground arith)

decimal-two : (n : ℕ) → 10 ≤ n → n < 100 → decimal n ≡ (b'0' + n / 10) ∷ (b'0' + n % 10) ∷ []
unfolding decimal
decimal-two n h k =
    digits_of-step (suc n) n [] (omega arith) h
    ∙ digits_of-small (suc n - 1) (n / 10) ((b'0' + n % 10) ∷ []) (omega arith) (omega arith)

-- The two digits of a month, a day, an hour or a minute.
pub pad_two-decimal :
    (n : ℕ) → n < 100 → pad_two (decimal n) ≡ (b'0' + n / 10) ∷ (b'0' + n % 10) ∷ []
unfolding pad_two
pad_two-decimal n h = elim (dec_lt n 10) [
  | yes p ↦ rw (decimal-one n p) (ground arith)
  | no p ↦ rw (decimal-two n (omega arith) h) refl
]

-- The four digits of a year.
pub decimal-four :
    (n : ℕ)
    → 1000 ≤ n
    → n < 10000
    → decimal n
      ≡ (b'0' + n / 1000) ∷ (b'0' + n / 100 % 10) ∷ (b'0' + n / 10 % 10) ∷ (b'0' + n % 10) ∷ []
unfolding decimal
decimal-four n h k =
    let ones = (b'0' + n % 10) ∷ [] in
    let tens = (b'0' + n / 10 % 10) ∷ ones in
    let hundreds : Text = (b'0' + n / 10 / 10 % 10) ∷ tens in
    digits_of-step (suc n) n [] (omega arith) (omega arith)
    ∙ digits_of-step (suc n - 1) (n / 10) ones (omega arith) (omega arith)
    ∙ digits_of-step (suc n - 1 - 1) (n / 10 / 10) tens (omega arith) (omega arith)
    ∙ digits_of-small (suc n - 1 - 1 - 1) (n / 10 / 10 / 10) hundreds (omega arith) (omega arith)
    ∙ ground arith
