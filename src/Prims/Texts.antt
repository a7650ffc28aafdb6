-- ===== src/Prims/Texts.antt =====
-- reference/shen-gc/zincvm.c: the primitives of `exec_primitive` on strings.
--
-- A string is its `str.len` bytes; the byte behind them is a NUL. An argument of another kind than
-- the code reads, and an `int` that overflows, are undefined and end the model's run.
pub mod Laws
pub mod Cut
use fx_ui.Base.{
  ℕ, suc, ◌+◌, ◌-◌, ◌%◌, ◌^◌, Bool, true, false, ◌&&◌, ◌||◌, ◌==◌, Option, none, some, List, [],
  ◌∷◌, ◌++◌, ltb, leb, if◌then◌else◌, length, get_elem?, take, drop,
}
use fx_ui.Base.Bytes.{Bytes, codes}
use fx_ui.Base.Int.{ℤ, pos, negsuc}
use fx_ui.Value.{Value}
use fx_ui.Machine.State.{PrimResult, to_int}
use fx_ui.Parse.Reader.{until_nul}
use fx_ui.Parse.Encode.{decimal_ℤ, bool_text}
use fx_ui.Prims.{Popped}

-- The conversion to `char`, as an unsigned byte.
abbrev pub to_byte : ℤ → ℕ
to_byte (pos n) = n % 256
to_byte (negsuc n) = 255 - n % 256

-- How `cn` writes a value; `%ld` is the decimal text.
abbrev pub cn_text : Value → Bytes
cn_text (Value.string s) = s
cn_text (Value.number z) = decimal_ℤ z
cn_text (Value.symbol s) = s
cn_text (Value.boolean b) = bool_text b
cn_text Value.nil = codes "[]"
cn_text v = codes "[?]"

-- `[start, start + len)` after the clamps of `substring`, for a text of `size` bytes; `none` when
-- `start + len` overflows.
abbrev pub clamp_start : ℤ → ℕ → ℕ
clamp_start (negsuc n) size = 0
clamp_start (pos n) size = if ltb size n then size else n

abbrev pub clamp_len : ℤ → ℕ
clamp_len (negsuc n) = 0
clamp_len (pos n) = n

unfoldable pub clamp : ℤ → ℤ → ℕ → Option (ℕ × ℕ)
clamp start len size =
    let from = clamp_start start size in
    let count = clamp_len len in
    if leb (2 ^ 31) (from + count)
    then none
    else if ltb size (from + count)
    then some (from, size - from)
    else some (from, count)

-- The elements of a list as bytes; `none` at an element that is no number.
abbrev pub cons_byte : ℤ → Option Bytes → Option Bytes
cons_byte z none = none
cons_byte z (some bs) = some (to_byte z ∷ bs)

unfoldable pub bytes_of : Value → Option Bytes
bytes_of (Value.cons (Value.number z) d) = cons_byte z (bytes_of d)
bytes_of (Value.cons a d) = none
bytes_of v = some []

-- `for (i = n - 1; i >= 0; i--) out = val_cons(val_number(data[i]), out);`
unfoldable pub byte_list : Bytes → Value
byte_list [] = Value.nil
byte_list (b ∷ bs) = Value.cons (Value.number (pos b)) (byte_list bs)

abbrev pub int_to_nat : ℤ → Option ℕ
int_to_nat (pos n) = some n
int_to_nat (negsuc n) = none

-- `i >= 0 && i < len`, and the byte there.
unfoldable pub byte_at : Bytes → ℤ → Option ℕ
byte_at s (pos n) = get_elem? s n
byte_at s (negsuc n) = none

module _ {W : Type 0} (w : W) where
  unfoldable pub prim_cn : Popped W
  prim_cn (a1 ∷ a2 ∷ st) =
      let text = cn_text a1 ++ cn_text a2 in
      if leb (2 ^ 31) (length text)
      then PrimResult.died
      else PrimResult.primed (Value.string text) st w
  prim_cn _ = PrimResult.died

  unfoldable pub prim_c_strlen : Popped W
  prim_c_strlen (Value.string s ∷ st) = PrimResult.primed (Value.number (pos (length s))) st w
  prim_c_strlen _ = PrimResult.died

  abbrev pub code_or_minus : Option ℕ → Value
  code_or_minus none = Value.number (negsuc 0)
  code_or_minus (some b) = Value.number (pos b)

  unfoldable pub prim_char_code : Popped W
  prim_char_code (Value.string s ∷ Value.number i ∷ st) =
      PrimResult.primed (code_or_minus (byte_at s (to_int i))) st w
  prim_char_code _ = PrimResult.died

  unfoldable pub prim_n_to_string : Popped W
  prim_n_to_string (Value.number z ∷ st) = PrimResult.primed (Value.string (to_byte z ∷ [])) st w
  prim_n_to_string _ = PrimResult.died

  abbrev pub first_byte : Bytes → ℕ
  first_byte [] = 0
  first_byte (b ∷ bs) = b

  unfoldable pub prim_string_to_n : Popped W
  prim_string_to_n (Value.string s ∷ st) =
      PrimResult.primed (Value.number (pos (first_byte s))) st w
  prim_string_to_n _ = PrimResult.died

  -- `val_string_from(&a, 0, 1)`: of the empty text, the NUL.
  unfoldable pub prim_hdstr : Popped W
  prim_hdstr (Value.string s ∷ st) = PrimResult.primed (Value.string (first_byte s ∷ [])) st w
  prim_hdstr _ = PrimResult.died

  -- `val_string_from(&a, 1, a.str.len - 1)`: of the empty text, a copy of -1 bytes.
  unfoldable pub prim_tlstr : Popped W
  prim_tlstr (Value.string (b ∷ bs) ∷ st) = PrimResult.primed (Value.string bs) st w
  prim_tlstr _ = PrimResult.died

  -- Out of bounds it is an error inside the body of a `trap-error`, and empty elsewhere.
  abbrev pub pos_result : Option Bool → Option ℕ → Popped W
  pos_result catching (some b) st = PrimResult.primed (Value.string (b ∷ [])) st w
  pos_result (some true) none st = PrimResult.raised (codes "pos out of bounds") w
  pos_result _ none st = PrimResult.primed (Value.string []) st w

  unfoldable pub prim_pos : Option Bool → Popped W
  prim_pos catching (Value.string s ∷ Value.number i ∷ st) =
      pos_result catching (byte_at s (to_int i)) st
  prim_pos catching _ = PrimResult.died

  abbrev pub cut : Bytes → Option (ℕ × ℕ) → Popped W
  cut s none st = PrimResult.died
  cut s (some (from, count)) st = PrimResult.primed (Value.string (take count (drop from s))) st w

  unfoldable pub prim_substring : Popped W
  prim_substring (Value.string s ∷ Value.number start ∷ Value.number len ∷ st) =
      cut s (clamp (to_int start) (to_int len) (length s)) st
  prim_substring _ = PrimResult.died

  -- `char buf[256]`
  unfoldable pub prim_intern : Popped W
  prim_intern (Value.string s ∷ st) = PrimResult.primed (Value.symbol (until_nul (take 255 s))) st w
  prim_intern _ = PrimResult.died

  unfoldable pub prim_str_to_bytes : Popped W
  prim_str_to_bytes (Value.string s ∷ st) = PrimResult.primed (byte_list s) st w
  prim_str_to_bytes (v ∷ st) =
      PrimResult.raised (codes "attempt to convert a non-string with str->bytes") w
  prim_str_to_bytes [] = PrimResult.died

  abbrev pub bytes_result : Option Bytes → Popped W
  bytes_result none st = PrimResult.died
  bytes_result (some bs) st = PrimResult.primed (Value.string bs) st w

  unfoldable pub prim_bytes_to_string : Popped W
  prim_bytes_to_string (Value.nil ∷ st) = PrimResult.primed (Value.string []) st w
  prim_bytes_to_string (Value.cons a d ∷ st) = bytes_result (bytes_of (Value.cons a d)) st
  prim_bytes_to_string (v ∷ st) =
      PrimResult.raised (codes "attempt to convert a non-list with bytes->string") w
  prim_bytes_to_string [] = PrimResult.died

  unfoldable pub prim_error_to_string : Popped W
  prim_error_to_string (Value.error m ∷ st) = PrimResult.primed (Value.string m) st w
  prim_error_to_string (Value.string s ∷ st) = PrimResult.primed (Value.string s) st w
  prim_error_to_string (v ∷ st) = PrimResult.primed (Value.string (codes "unknown error")) st w
  prim_error_to_string [] = PrimResult.died

-- The characters of a variable behind its first.
abbrev pub is_upper : ℕ → Bool
is_upper c = leb b'A' c && leb c b'Z'

abbrev pub is_one_of : ℕ → Bytes → Bool
is_one_of c [] = false
is_one_of c (b ∷ bs) = c == b || is_one_of c bs

abbrev pub is_variable_byte : ℕ → Bool
is_variable_byte c =
    is_upper c
    || (leb b'a' c && leb c b'z')
    || (leb b'0' c && leb c b'9')
    || is_one_of c (codes "`=*/+_?$!@~.><&%'#")

unfoldable pub all_variable_bytes : Bytes → Bool
all_variable_bytes [] = true
all_variable_bytes (c ∷ cs) = if is_variable_byte c then all_variable_bytes cs else false

abbrev pub is_variable : Value → Bool
is_variable (Value.symbol []) = false
is_variable (Value.symbol (c ∷ cs)) = if is_upper c then all_variable_bytes cs else false
is_variable v = false
