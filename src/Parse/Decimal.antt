-- ===== src/Parse/Decimal.antt =====
-- reference/shen-gc/zincvm.c: `parse_int` and `atol` read decimal digits back.
use fx_ui.Base.{
  ℕ, zero, suc, ◌+◌, ◌-◌, ◌*◌, ◌/◌, ◌%◌, ◌^◌, ◌≤◌, ◌<◌, ◌≡◌, ◌≢◌, refl, ◌∙◌, true, false, some, [],
  ◌∷◌, ◌++◌, arith, ltb, leb, ◌==◌, All, Bool-cases, inl, inr,
}
use fx_ui.Base.Bytes.{Bytes}
use fx_ui.Base.Int.{ℤ, pos, negsuc}
use fx_ui.Parse.Reader.{
  parsed, is_space, is_digit, read_digits, parse_int, digits_value, skip_ws, signed, number_written,
  fits_long, atol,
}
use fx_ui.Parse.Encode.{digits, decimal, decimal_ℤ}

abbrev pub AllDigits : Bytes → Type 0
AllDigits ds = All (λ d. is_digit d ≡ true) ds

-- The number that digits stand for after `acc`.
abbrev pub value : ℕ → Bytes → ℕ
value acc [] = acc
value acc (d ∷ ds) = value (acc * 10 + (d - b'0')) ds

value-le : (acc : ℕ) (ds : Bytes) → acc ≤ value acc ds
value-le acc [] = omega arith
value-le acc (d ∷ ds) = omega (arith, value-le (acc * 10 + (d - b'0')) ds)

value-snoc : (acc d : ℕ) (ds : Bytes) → value acc (ds ++ d ∷ []) ≡ value acc ds * 10 + (d - b'0')
value-snoc acc d [] = refl
value-snoc acc d (e ∷ ds) = value-snoc (acc * 10 + (e - b'0')) d ds

All-snoc : (ds : Bytes) (d : ℕ) → AllDigits ds → is_digit d ≡ true → AllDigits (ds ++ d ∷ [])
All-snoc [] d h e = (e, tt)
All-snoc (x ∷ ds) d h e = (h.0, All-snoc ds d h.1 e)

digit_is : (k : ℕ) → k < 10 → is_digit (b'0' + k) ≡ true
unfolding is_digit
digit_is k h = ground arith

digits-AllDigits : (f n : ℕ) → AllDigits (digits f n)
unfolding digits
digits-AllDigits zero n = tt
digits-AllDigits (suc f) n = elim (Bool-cases (ltb n 10)) [
  | inl e ↦ rw e (digit_is n (ground arith), tt)
  | inr e ↦ rw e (
      All-snoc (digits f (n / 10)) (b'0' + n % 10) (digits-AllDigits f (n / 10))
        (digit_is (n % 10) (omega arith)))
]

value-digits : (f n : ℕ) → n < f → value 0 (digits f n) ≡ n
unfolding digits
value-digits zero n h = elim h [ ]
value-digits (suc f) n h = elim (Bool-cases (ltb n 10)) [
  | inl e ↦ rw e (omega arith)
  | inr e ↦
      let big : 10 ≤ n = ground arith in
      rw (e, value-snoc 0 (b'0' + n % 10) (digits f (n / 10)))
        (omega (arith, value-digits f (n / 10)))
]

read_digits-append :
    (acc : ℕ) (ds rest : Bytes) (c : ℕ)
    → AllDigits ds
    → is_digit c ≡ false
    → value acc ds < 2 ^ 31
    → read_digits acc (ds ++ c ∷ rest) ≡ parsed (value acc ds) (c ∷ rest)
unfolding read_digits
read_digits-append acc [] rest c h e b = rw e
read_digits-append acc (d ∷ ds) rest c h e b =
    let small = value-le (acc * 10 + (d - b'0')) ds in
    let fits : leb (2 ^ 31) (acc * 10 + (d - b'0')) ≡ false = ground arith in
    rw (h.0, fits) (read_digits-append (acc * 10 + (d - b'0')) ds rest c h.1 e b)

parse_int-append :
    (ds rest : Bytes) (c : ℕ)
    → AllDigits ds
    → ds ≢ []
    → is_digit c ≡ false
    → value 0 ds < 2 ^ 31
    → parse_int (ds ++ c ∷ rest) ≡ parsed (value 0 ds) (c ∷ rest)
unfolding parse_int
parse_int-append [] rest c h n e b = absurd (n refl)
parse_int-append (d ∷ ds) rest c h n e b = rw h.0 (read_digits-append 0 (d ∷ ds) rest c h e b)

snoc-ne : (ds : Bytes) (d : ℕ) → ds ++ d ∷ [] ≢ []
snoc-ne [] d h = cc
snoc-ne (x ∷ ds) d h = cc

digits-ne : (f n : ℕ) → digits (suc f) n ≢ []
unfolding digits
digits-ne f n h = elim (Bool-cases (ltb n 10)) [
  | inl e ↦ cc (rw e at h)
  | inr e ↦ snoc-ne (digits f (n / 10)) (b'0' + n % 10) (rw e at h)
]

decimal_lem : (n : ℕ) → AllDigits (decimal n) × (decimal n ≢ []) × (value 0 (decimal n) ≡ n)
unfolding decimal
decimal_lem n =
    let more : n + 1 ≡ suc n = omega arith in
    (
      digits-AllDigits (n + 1) n,
      λ h. digits-ne n n (rw more at h),
      value-digits (n + 1) n (omega arith),
    )

digits_value-eq : (acc : ℕ) (ds : Bytes) → AllDigits ds → digits_value acc ds ≡ value acc ds
unfolding digits_value
digits_value-eq acc [] h = refl
digits_value-eq acc (d ∷ ds) h = rw h.0 (digits_value-eq (acc * 10 + (d - b'0')) ds h.1)

-- A decimal number that is an `int` is read back, if no digit follows.
pub parse_int-decimal :
    (n c : ℕ) (rest : Bytes)
    → n < 2 ^ 31
    → is_digit c ≡ false
    → parse_int (decimal n ++ c ∷ rest) ≡ parsed n (c ∷ rest)
parse_int-decimal n c rest h e =
    let (all, ne, v) = decimal_lem n in
    parse_int-append (decimal n) rest c all ne e (rw v h) ∙ rw v refl

signed-digits : (ds : Bytes) → AllDigits ds → ds ≢ [] → signed (skip_ws ds) ≡ pos (value 0 ds)
unfolding skip_ws is_digit
signed-digits [] h n = absurd (n refl)
signed-digits (d ∷ ds) h n =
    let digit = h.0 in
    let space : is_space d ≡ false = ground arith in
    let minus : (d == b'-') ≡ false = ground arith in
    let plus : (d == b'+') ≡ false = ground arith in
    rw (space, minus, plus) (rw (digits_value-eq 0 (d ∷ ds) h))

-- The text of a number writes that number.
pub number_written-decimal_ℤ : (z : ℤ) → number_written (decimal_ℤ z) ≡ z
unfolding number_written decimal_ℤ
number_written-decimal_ℤ (pos n) =
    let (all, ne, v) = decimal_lem n in signed-digits (decimal n) all ne ∙ rw v refl
number_written-decimal_ℤ (negsuc n) =
    let (all, ne, v) = decimal_lem (n + 1) in
    let more : n + 1 ≡ suc n = omega arith in
    unfold skip_ws is_space in rw (digits_value-eq 0 (decimal (n + 1)) all, v, more) refl

-- `atol` reads the text of a `long` back.
pub atol-decimal_ℤ : (z : ℤ) → fits_long z ≡ true → atol (decimal_ℤ z) ≡ some z
unfolding atol
atol-decimal_ℤ z h = rw (number_written-decimal_ℤ z, h) refl
