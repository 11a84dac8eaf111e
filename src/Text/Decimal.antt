-- ===== src/Text/Decimal.antt =====
-- `ostream << size_t` and `sprintf("%llu")` on one side, `sscanf("%llu")` on the other.
use hiaux.Base.{
  ℕ, zero, suc, ◌+◌, ◌-◌, ◌*◌, ◌/◌, ◌%◌, ◌^◌, ◌≤◌, ◌<◌, ◌≡◌, [], ◌∷◌, Bool, ◌&&◌, ◌||◌, Option,
  none, some, arith, Bytes, All, ltb, leb, ◌==◌, if◌then◌else◌, Bool-cases, inl, inr,
}

abbrev pub u64_max : ℕ
u64_max = 2 ^ 64 - 1

abbrev pub is_digit : ℕ → Bool
is_digit c = leb b'0' c && leb c b'9'

-- The white space of the "C" locale: space, and 9 to 13.
abbrev pub is_space : ℕ → Bool
is_space c = c == b' ' || (leb 9 c && leb c 13)

abbrev pub IsDigit : ℕ → Type 0
IsDigit c = (b'0' ≤ c) × (c ≤ b'9')

-- The digits of `n` in front of `out`; each round divides by ten.
print_digits : ℕ → ℕ → Bytes → Bytes
print_digits zero n out = out
print_digits (suc fuel) n out =
    let rest = print_digits fuel (n / 10) ((b'0' + n % 10) ∷ out) in
    if ltb n 10 then (b'0' + n) ∷ out else rest

-- An unsigned number as `<<` and `%llu` write it.
unfoldable pub print_u64 : ℕ → Bytes
unfolding print_digits
print_u64 n = print_digits (suc n) n []

-- The number that the leading digits spell behind `n`.
pub leading_value : ℕ → Bytes → ℕ
leading_value n [] = n
leading_value n (c ∷ s) = if is_digit c then leading_value (n * 10 + (c - b'0')) s else n

abbrev skip_space : Bytes → Bytes
skip_space [] = []
skip_space (c ∷ s) = if is_space c then skip_space s else c ∷ s

-- The conversion stores the largest value when the number does not fit.
abbrev saturate : ℕ → ℕ
saturate n = if leb n u64_max then n else u64_max

-- A minus sign negates modulo 2 ^ 64, but not the value stored for a number that does not fit.
abbrev negate : ℕ → ℕ
negate n = if leb n u64_max then (2 ^ 64 - n) % 2 ^ 64 else u64_max

-- `none` stores nothing: there is no digit to convert.
abbrev scan_unsigned : (ℕ → ℕ) → Bytes → Option ℕ
scan_unsigned f [] = none
scan_unsigned f (c ∷ s) = if is_digit c then some (f (leading_value 0 (c ∷ s))) else none

abbrev scan_signed : Bytes → Option ℕ
scan_signed [] = none
scan_signed (c ∷ s) =
    if c == b'-'
    then scan_unsigned negate s
    else if c == b'+'
    then scan_unsigned saturate s
    else scan_unsigned saturate (c ∷ s)

-- `sscanf(s, "%llu", &i)`: what is stored in `i`.
unfoldable pub scan_u64 : Bytes → Option ℕ
unfolding leading_value
scan_u64 s = scan_signed (skip_space s)

print_digits-All : (f n : ℕ) (out : Bytes) → All IsDigit out → All IsDigit (print_digits f n out)
unfolding print_digits
print_digits-All zero n out h = h
print_digits-All (suc f) n out h = elim (Bool-cases (ltb n 10)) [
  | inl e ↦ rw e (ground arith, h)
  | inr e ↦ rw e (print_digits-All f (n / 10) ((b'0' + n % 10) ∷ out) (omega arith, h))
]

pub print_u64-All : (n : ℕ) → All IsDigit (print_u64 n)
unfolding print_u64
print_u64-All n = print_digits-All (suc n) n [] tt

leading_value-print_digits :
    (f n : ℕ) (out : Bytes) → n < f → leading_value 0 (print_digits f n out) ≡ leading_value n out
unfolding print_digits leading_value
leading_value-print_digits zero n out h = absurd (omega arith)
leading_value-print_digits (suc f) n out h =
    ground (arith, leading_value-print_digits f (n / 10) ((b'0' + n % 10) ∷ out))

pub leading_value-print_u64 : (n : ℕ) → leading_value 0 (print_u64 n) ≡ n
unfolding print_u64 leading_value
leading_value-print_u64 n = leading_value-print_digits (suc n) n [] (omega arith)

-- A text that begins with a digit is scanned from there.
scan_u64_digit :
    (c : ℕ) (s : Bytes) → IsDigit c → scan_u64 (c ∷ s) ≡ some (saturate (leading_value 0 (c ∷ s)))
unfolding scan_u64
scan_u64_digit c s h = ground arith

print_digits-cons :
    (f n : ℕ) (out : Bytes) → (c : ℕ) × (s : Bytes) × (print_digits (suc f) n out ≡ c ∷ s)
unfolding print_digits
print_digits-cons zero n out = elim (Bool-cases (ltb n 10)) [
  | inl e ↦ (b'0' + n, out, rw e)
  | inr e ↦ (b'0' + n % 10, out, rw e)
]
print_digits-cons (suc f) n out = elim (Bool-cases (ltb n 10)) [
  | inl e ↦ (b'0' + n, out, rw e)
  | inr e ↦
      let (c, s, q) = print_digits-cons f (n / 10) ((b'0' + n % 10) ∷ out) in
      (c, s, rw (e, print_digits) q)
]

pub print_u64-cons : (n : ℕ) → (c : ℕ) × (s : Bytes) × (print_u64 n ≡ c ∷ s)
unfolding print_u64
print_u64-cons n = print_digits-cons n n []

-- A number that fits 64 bits is scanned back from its printed form.
pub scan_u64-print_u64 : (n : ℕ) → n ≤ u64_max → scan_u64 (print_u64 n) ≡ some n
scan_u64-print_u64 n h =
    let (c, s, e) = print_u64-cons n in
    let digits : All IsDigit (c ∷ s) = rw e at (print_u64-All n) in
    let value : leading_value 0 (c ∷ s) ≡ n = rw e at (leading_value-print_u64 n) in
    rw (e, scan_u64_digit c s digits.0, value) (ground arith)
