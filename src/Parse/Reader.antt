-- ===== src/Parse/Reader.antt =====
-- reference/shen-gc/zincvm.c: `skip_ws`, `parse_int` and `parse_csexp_atom`.
--
-- The text is the bytes from `ps->p` on, without the closing NUL, which `peek` gives at the end.
use fx_ui.Base.{
  ℕ, zero, suc, ◌+◌, ◌-◌, ◌*◌, ◌^◌, Bool, ◌&&◌, ◌||◌, Option, none, some, [], ◌∷◌, leb, ltb, ◌==◌,
  if◌then◌else◌, length, take, drop,
}
use fx_ui.Base.Bytes.{Bytes, codes, byte_eq}
use fx_ui.Base.Int.{ℤ, pos, negsuc}
use fx_ui.Value.{Value}

-- `failed` is PARSE_ERROR, which jumps out of the parser; `faulted` is undefined behaviour, an `int`
-- or a `long` that overflows or a read past the end of the text; `starved` is a model run out of fuel.
pub data Parsed (A : Type 0) : Type 0 where
  parsed : A → Bytes → Parsed A
  failed : Parsed A
  faulted : Parsed A
  starved : Parsed A

abbrev pub and_then : {A B : Type 0} → Parsed A → (A → Bytes → Parsed B) → Parsed B
and_then (Parsed.parsed a rest) k = k a rest
and_then Parsed.failed k = Parsed.failed
and_then Parsed.faulted k = Parsed.faulted
and_then Parsed.starved k = Parsed.starved

-- `isspace` in the C locale.
unfoldable pub is_space : ℕ → Bool
is_space c = c == 32 || leb 9 c && leb c 13

unfoldable pub is_digit : ℕ → Bool
is_digit c = leb b'0' c && leb c b'9'

unfoldable pub skip_ws : Bytes → Bytes
unfolding is_space
skip_ws [] = []
skip_ws (c ∷ cs) = let rest = skip_ws cs in if is_space c then rest else c ∷ cs

-- `n = n * 10 + (*ps->p - '0')` on an `int`, while there are digits.
unfoldable pub read_digits : ℕ → Bytes → Parsed ℕ
unfolding is_digit
read_digits n [] = Parsed.parsed n []
read_digits n (c ∷ cs) =
    let n' = n * 10 + (c - b'0') in
    let rest = read_digits n' cs in
    if is_digit c
    then (if leb (2 ^ 31) n' then Parsed.faulted else rest)
    else Parsed.parsed n (c ∷ cs)

unfoldable pub parse_int : Bytes → Parsed ℕ
unfolding is_digit
parse_int [] = Parsed.failed
parse_int (c ∷ cs) = if is_digit c then read_digits 0 (c ∷ cs) else Parsed.failed

-- `if (*ps->p != c) PARSE_ERROR(…); ps->p++`
unfoldable pub expect : ℕ → Bytes → Parsed (Unit {0})
expect c [] = Parsed.failed
expect c (b ∷ bs) = if b == c then Parsed.parsed tt bs else Parsed.failed

-- `char type = *ps->p; ps->p++`; at the end of the text the next read is past the NUL.
unfoldable pub any_char : Bytes → Parsed ℕ
any_char [] = Parsed.faulted
any_char (b ∷ bs) = Parsed.parsed b bs

-- `memcpy(buf, ps->p, len); ps->p += len`
unfoldable pub take_bytes : ℕ → Bytes → Parsed Bytes
take_bytes len bs =
    if leb len (length bs) then Parsed.parsed (take len bs) (drop len bs) else Parsed.faulted

-- A buffer read as a C string.
unfoldable pub until_nul : Bytes → Bytes
until_nul [] = []
until_nul (c ∷ cs) = if c == 0 then [] else c ∷ until_nul cs

unfoldable pub digits_value : ℕ → Bytes → ℕ
unfolding is_digit
digits_value n [] = n
digits_value n (c ∷ cs) =
    let rest = digits_value (n * 10 + (c - b'0')) cs in if is_digit c then rest else n

abbrev pub minus : ℕ → ℤ
minus zero = pos 0
minus (suc n) = negsuc n

-- The number that blanks, a sign and digits write.
abbrev pub signed : Bytes → ℤ
signed [] = pos 0
signed (c ∷ cs) =
    if c == b'-'
    then minus (digits_value 0 cs)
    else if c == b'+'
    then pos (digits_value 0 cs)
    else pos (digits_value 0 (c ∷ cs))

unfoldable pub number_written : Bytes → ℤ
number_written bs = signed (skip_ws bs)

abbrev pub fits_long : ℤ → Bool
fits_long (pos n) = ltb n (2 ^ 63)
fits_long (negsuc n) = ltb n (2 ^ 63)

-- `atol`, which is undefined for a number outside `long`.
unfoldable pub atol : Bytes → Option ℤ
atol bs = if fits_long (number_written bs) then some (number_written bs) else none

abbrev pub number_or_fault : Option ℤ → Bytes → Parsed Value
number_or_fault none rest = Parsed.faulted
number_or_fault (some z) rest = Parsed.parsed (Value.number z) rest

-- The value of an atom by its type character, with the text after it.
unfoldable pub atom_value : ℕ → Bytes → Bytes → Parsed Value
unfolding until_nul
atom_value type buf rest =
    if type == b's'
    then Parsed.parsed (Value.symbol (until_nul buf)) rest
    else if type == b'n'
    then number_or_fault (atol buf) rest
    else if type == b'S'
    then Parsed.parsed (Value.string buf) rest
    else if type == b'b'
    then Parsed.parsed (Value.boolean (byte_eq (until_nul buf) (codes "true"))) rest
    else Parsed.failed

unfoldable pub parse_csexp_atom : Bytes → Parsed Value
parse_csexp_atom bs = and_then (expect b'[' (skip_ws bs)) λ _ b1. and_then (parse_int b1) λ len b2.
    and_then (expect b':' b2) λ _ b3. and_then (any_char b3) λ type b4.
      and_then (expect b']' b4)
        λ _ b5. and_then (take_bytes len b5) λ buf b6. atom_value type buf b6
