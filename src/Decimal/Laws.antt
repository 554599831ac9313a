-- ===== src/Decimal/Laws.antt =====
-- How long the decimal of a number is, and what it reads as.
use mathlib.Core.List.{append_assoc}
use ws_gateway.Common.{
  Bool, true, false, ==_iff, ==-eq-false, ◌==◌, ap, ◌∙◌, if◌then◌else◌, ℕ, zero, suc, ◌+◌, ◌*◌, ◌/◌,
  ◌%◌, ◌<◌, ◌≤◌, ◌≡◌, ◌⊎◌, refl, inl, inr, [], ◌∷◌, ◌++◌, length, length-append, ltb, ltb→lt,
  lt→ltb, ltb-eq-false, arith, Bool-cases, All-append, All,
}
use ws_gateway.Protocol.Fields.{Bytes}
use ws_gateway.Protocol.Fields.Laws.{IsText}
use ws_gateway.Decimal.{digits, decimal, fraction, thousandths}

-- `10 ^ k`, by recursion.
abbrev pub power : ℕ → ℕ
power zero = 1
power (suc k) = 10 * power k

power-pos : (k : ℕ) → 1 ≤ power k
power-pos zero = omega arith
power-pos (suc k) = let p = power-pos k in omega arith

digits-below : (fuel n : ℕ) → n < 10 → digits (suc fuel) n ≡ (48 + n) ∷ []
unfolding digits
digits-below fuel n h = rw (lt→ltb n 10 h) refl

digits-from :
    (fuel n : ℕ) → 10 ≤ n → digits (suc fuel) n ≡ digits fuel (n / 10) ++ (48 + n % 10) ∷ []
unfolding digits
digits-from fuel n h = rw (ltb-eq-false n 10 h) refl

one_digit? : (n : ℕ) → (n < 10) ⊎ (10 ≤ n)
one_digit? n = elim (Bool-cases (ltb n 10)) [
  | inl small ↦ inl (ltb→lt n 10 small)
  | inr big ↦ inr (ground arith)
]

length-digits_one : (fuel n : ℕ) → n < 10 → length (digits (suc fuel) n) ≡ 1
length-digits_one fuel n h = rw (digits-below fuel n h) refl

length-digits_more :
    (fuel n : ℕ) → 10 ≤ n → length (digits (suc fuel) n) ≡ suc (length (digits fuel (n / 10)))
length-digits_more fuel n h =
    rw (digits-from fuel n h)
      (omega (arith, length-append (digits fuel (n / 10)) ((48 + n % 10) ∷ [])))

length-digits_below : (k fuel n : ℕ) → n < fuel → n < power (suc k) → length (digits fuel n) ≤ suc k
length-digits_below k zero n h p = absurd (omega arith)
length-digits_below zero (suc fuel) n h p = omega (arith, length-digits_one fuel n p)
length-digits_below (suc k) (suc fuel) n h p = elim (one_digit? n) [
  | inl small ↦ omega (arith, length-digits_one fuel n small)
  | inr big ↦ omega (
    arith,
    length-digits_more fuel n big,
    length-digits_below k fuel (n / 10) (omega arith) (omega arith),
  )
]

length-digits_from : (k fuel n : ℕ) → n < fuel → power k ≤ n → suc k ≤ length (digits fuel n)
length-digits_from k zero n h p = absurd (omega arith)
length-digits_from zero (suc fuel) n h p = elim (one_digit? n) [
  | inl small ↦ omega (arith, length-digits_one fuel n small)
  | inr big ↦ omega (arith, length-digits_more fuel n big)
]
length-digits_from (suc k) (suc fuel) n h p =
    let big : 10 ≤ n = omega (arith, power-pos k) in
    omega (
      arith,
      length-digits_more fuel n big,
      length-digits_from k fuel (n / 10) (omega (arith, power-pos k)) (omega arith),
    )

digits-IsText : (fuel n : ℕ) → IsText (digits fuel n)
unfolding digits
digits-IsText zero n = tt
digits-IsText (suc fuel) n = elim (one_digit? n) [
  | inl small ↦ rw (digits-below fuel n small) ((omega arith, omega arith), tt)
  | inr big ↦ rw (digits-from fuel n big) (
      All-append _ (digits fuel (n / 10)) _ (digits-IsText fuel (n / 10))
        ((omega arith, omega arith), tt))
]

-- A decimal of up to `suc k` digits is one below `power (suc k)`.
pub length-decimal : (k n : ℕ) → n < power (suc k) → length (decimal n) ≤ suc k
unfolding decimal
length-decimal k n h = length-digits_below k (suc n) n (omega arith) h

pub length-decimal_from : (k n : ℕ) → power k ≤ n → suc k ≤ length (decimal n)
unfolding decimal
length-decimal_from k n h = length-digits_from k (suc n) n (omega arith) h

pub decimal-IsText : (n : ℕ) → IsText (decimal n)
unfolding decimal
decimal-IsText n = digits-IsText (suc n) n

thousandths-digit :
    (whole k : ℕ) (rest : Bytes)
    → k < 10
    → thousandths whole ((48 + k) ∷ rest) ≡ thousandths (whole * 10 + k) rest
unfolding thousandths
thousandths-digit whole k rest h =
    rw (==-eq-false (48 + k) 46 (omega arith), thousandths)
      (ap (λ m. thousandths m rest) (omega arith))

thousandths-digits :
    (fuel n : ℕ) (rest : Bytes)
    → n < fuel
    → thousandths 0 (digits fuel n ++ rest) ≡ thousandths n rest
thousandths-digits zero n rest h = absurd (omega arith)
thousandths-digits (suc fuel) n rest h = elim (one_digit? n) [
  | inl small ↦
      rw (digits-below fuel n small)
        (thousandths-digit 0 n rest small ∙ ap (λ m. thousandths m rest) (omega arith))
  | inr big ↦
      rw (digits-from fuel n big, append_assoc)
        (thousandths-digits fuel (n / 10) ((48 + n % 10) ∷ rest) (omega arith)
          ∙ thousandths-digit (n / 10) (n % 10) rest (omega arith)
          ∙ ap (λ m. thousandths m rest) (omega arith))
]

-- A decimal before other text reads as its number.
pub thousandths-decimal :
    (n : ℕ) (rest : Bytes) → thousandths 0 (decimal n ++ rest) ≡ thousandths n rest
unfolding decimal
thousandths-decimal n rest = thousandths-digits (suc n) n rest (omega arith)

-- A test that is true of every number below a bound.
tabled : (ℕ → Bool) → ℕ → Bool
tabled test zero = true
tabled test (suc last) = if test last then tabled test last else false

tabled-at : (test : ℕ → Bool) (m bound : ℕ) → m < bound → tabled test bound ≡ true → test m ≡ true
unfolding tabled
tabled-at test m zero lt all = absurd (omega arith)
tabled-at test m (suc last) lt all = ground (arith, tabled-at test m last)

-- A number of up to three digits after a point, without its leading zeros.
abbrev pub misread : ℕ → ℕ
misread m = if ltb m 10 then m * 100 else if ltb m 100 then m * 10 else m

reads_misread : ℕ → Bool
reads_misread m = fraction 100 (decimal m) == misread m

fraction-table : tabled reads_misread 1000 ≡ true
unfolding tabled reads_misread fraction decimal
fraction-table = refl

pub fraction-decimal : (m : ℕ) → m < 1000 → fraction 100 (decimal m) ≡ misread m
unfolding reads_misread
fraction-decimal m h = (==_iff _ _).0 (tabled-at reads_misread m 1000 h fraction-table)

-- The decimal of a number tells the number.
pub decimal-injective : (m n : ℕ) → decimal m ≡ decimal n → m ≡ n
unfolding thousandths
decimal-injective m n e =
    let same : thousandths 0 (decimal m ++ []) ≡ thousandths 0 (decimal n ++ []) =
      ap (λ (d : Bytes). thousandths 0 (d ++ [])) e in
    omega (arith, same, thousandths-decimal m [], thousandths-decimal n [])

digits-IsDigits : (fuel n : ℕ) → All (λ c. 48 ≤ c) (digits fuel n)
unfolding digits
digits-IsDigits zero n = tt
digits-IsDigits (suc fuel) n = elim (one_digit? n) [
  | inl small ↦ rw (digits-below fuel n small) (omega arith, tt)
  | inr big ↦
      rw (digits-from fuel n big)
        (All-append _ (digits fuel (n / 10)) _ (digits-IsDigits fuel (n / 10)) (omega arith, tt))
]

pub decimal-digits : (n : ℕ) → All (λ c. 48 ≤ c) (decimal n)
unfolding decimal
decimal-digits n = digits-IsDigits (suc n) n
