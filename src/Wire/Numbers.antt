-- ===== src/Wire/Numbers.antt =====
-- Decimal numbers are read back.
use hyperdir.Base.{
  ℕ, zero, suc, ◌+◌, ◌-◌, ◌*◌, ◌/◌, ◌%◌, ◌^◌, ◌≤◌, ◌<◌, ◌≡◌, ◌≢◌, refl, ap, ◌∙◌, Bool, true, false,
  some, [], ◌∷◌, ltb, ◌==◌, if◌then◌else◌, arith, Text, All, Bool-cases, inl, inr,
}
use hyperdir.Base.Int.{ℤ, pos, negsuc, IsI64}
use native.Mathlib.Nat.{pow-suc}
use hyperdir.Wire.Lines.{IsFieldByte}
use hyperdir.Wire.{
  fitting, negated, integer, digits, decimal, decimal_i64, digits_value, parse_digits, parse_uint,
  parse_i64,
}

abbrev pub IsDigit : ℕ → Type 0
IsDigit c = (48 ≤ c) × (c ≤ 57)

value_step :
    (acc c : ℕ) (cs : Text)
    → IsDigit c
    → digits_value acc (c ∷ cs) ≡ digits_value (acc * 10 + (c - 48)) cs
unfolding digits_value
value_step acc c cs h = ground arith

tenth_below : (n fuel : ℕ) → n < 10 ^ suc fuel → n / 10 < 10 ^ fuel
tenth_below n fuel h = omega (arith, pow-suc 10 fuel)

-- What the digits of `n` add to what stands behind them.
digits_value-digits :
    (fuel n : ℕ) (rest : Text)
    → n < 10 ^ fuel
    → digits_value 0 (digits fuel n rest) ≡ digits_value n rest
unfolding digits
digits_value-digits zero n rest h = ap (λ k. digits_value k rest) (omega arith)
digits_value-digits (suc fuel) n rest h = elim (Bool-cases (ltb n 10)) [
  | inl small ↦
      rw small
        (value_step 0 (48 + n) rest (ground arith) ∙ ap (λ k. digits_value k rest) (omega arith))
  | inr large ↦ rw large (
      digits_value-digits fuel (n / 10) ((48 + n % 10) ∷ rest) (tenth_below n fuel h)
      ∙ value_step (n / 10) (48 + n % 10) rest (omega arith)
      ∙ ap (λ k. digits_value k rest) (omega arith))
]

digits-All : (fuel n : ℕ) (rest : Text) → All IsDigit rest → All IsDigit (digits fuel n rest)
unfolding digits
digits-All zero n rest h = h
digits-All (suc fuel) n rest h = elim (Bool-cases (ltb n 10)) [
  | inl small ↦ rw small (ground arith, h)
  | inr large ↦ rw large (digits-All fuel (n / 10) ((48 + n % 10) ∷ rest) (omega arith, h))
]

decimal-All : (n : ℕ) → All IsDigit (decimal n)
unfolding decimal
decimal-All n = digits-All 20 n [] tt

digits-ne-nil : (fuel n : ℕ) (rest : Text) → 0 < fuel → digits fuel n rest ≢ []
unfolding digits
digits-ne-nil zero n rest h = absurd (omega arith)
digits-ne-nil (suc zero) n rest h = ground arith
digits-ne-nil (suc (suc fuel)) n rest h =
    ground (arith, digits-ne-nil (suc fuel) (n / 10) ((48 + n % 10) ∷ rest))

-- A row of digits that is not empty reads the same with or without room for a sign.
parse_digits-digits :
    (max_value v : ℕ) (s : Text)
    → s ≢ []
    → digits_value 0 s ≡ some v
    → v ≤ max_value
    → parse_digits max_value s ≡ some v
unfolding parse_digits
parse_digits-digits max_value v [] ne h le = absurd (ne refl)
parse_digits-digits max_value v (c ∷ cs) ne h le = ap (fitting max_value) h ∙ ground arith

parse_digits-decimal :
    (max_value n : ℕ) → n ≤ max_value → n < 10 ^ 20 → parse_digits max_value (decimal n) ≡ some n
unfolding decimal
parse_digits-decimal max_value n le small =
    parse_digits-digits max_value n (digits 20 n []) (digits-ne-nil 20 n [] (omega arith))
      (digits_value-digits 20 n [] small ∙ end) le
  where
    end : digits_value n [] ≡ some n
    end = unfold digits_value in refl

no_sign :
    (max_value : ℕ) (s : Text) → All IsDigit s → parse_uint max_value s ≡ parse_digits max_value s
unfolding parse_uint parse_digits
no_sign max_value [] h = refl
no_sign max_value (c ∷ cs) (digit, _) = ground arith

-- A number that fits is read back from its digits.
pub parse_uint-decimal :
    (max_value n : ℕ) → n ≤ max_value → n < 10 ^ 20 → parse_uint max_value (decimal n) ≡ some n
parse_uint-decimal max_value n le small =
    no_sign max_value (decimal n) (decimal-All n) ∙ parse_digits-decimal max_value n le small

digits_are_field : (s : Text) → All IsDigit s → All IsFieldByte s
digits_are_field [] h = tt
digits_are_field (c ∷ s) (d, h) = (omega (arith, d), digits_are_field s h)

parse_i64-plain : (s : Text) → All IsDigit s → parse_i64 s ≡ integer pos (parse_uint (2 ^ 63 - 1) s)
unfolding parse_i64 parse_uint
parse_i64-plain [] digit = refl
parse_i64-plain (c ∷ cs) (digit, _) = if_else (c == 45) _ _ (ground arith)
  where
    if_else : {A : Type 0} (b : Bool) (x y : A) → b ≡ false → (if b then x else y) ≡ y
    if_else true x y h = cc
    if_else false x y h = refl

parse_i64-minus : (s : Text) → parse_i64 (45 ∷ s) ≡ integer negated (parse_digits (2 ^ 63) s)
unfolding parse_i64
parse_i64-minus s = refl

-- An `i64` is read back from its text.
pub parse_i64-decimal_i64 : (t : ℤ) → IsI64 t → parse_i64 (decimal_i64 t) ≡ some t
unfolding decimal_i64
parse_i64-decimal_i64 (pos n) h =
    parse_i64-plain (decimal n) (decimal-All n)
    ∙ ap (integer pos) (parse_uint-decimal (2 ^ 63 - 1) n (omega arith) (omega arith))
parse_i64-decimal_i64 (negsuc n) h =
    parse_i64-minus (decimal (n + 1))
    ∙ ap (integer negated) (parse_digits-decimal (2 ^ 63) (n + 1) (omega arith) (omega arith))
    ∙ minus_one n
  where
    suc_eq : (k : ℕ) → k + 1 ≡ suc k
    suc_eq k = omega arith

    minus_one : (k : ℕ) → integer negated (some (k + 1)) ≡ some (negsuc k)
    minus_one k = ap (λ j. integer negated (some j)) (suc_eq k)

-- The digits are bytes of a field.
pub decimal-IsFieldByte : (n : ℕ) → All IsFieldByte (decimal n)
decimal-IsFieldByte n = digits_are_field (decimal n) (decimal-All n)

pub decimal_i64-IsFieldByte : (t : ℤ) → All IsFieldByte (decimal_i64 t)
unfolding decimal_i64
decimal_i64-IsFieldByte (pos n) = decimal-IsFieldByte n
decimal_i64-IsFieldByte (negsuc n) = (omega arith, decimal-IsFieldByte (n + 1))
