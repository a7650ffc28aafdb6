-- ===== src/Prims/Texts/Laws.antt =====
-- reference/shen-gc/zincvm.c: the primitives on strings undo one another.
use fx_ui.Base.{
  ℕ, zero, suc, Bool, ◌+◌, ◌%◌, ◌^◌, ◌<◌, ◌≡◌, refl, ap, false, Option, some, List, [], ◌∷◌, ◌++◌,
  arith, ltb, leb, length, get_elem?, take, drop, All,
}
use fx_ui.Base.Bytes.{Bytes}
use fx_ui.Base.Int.{pos}
use fx_ui.Value.{Value}
use fx_ui.Machine.State.{PrimResult}
use fx_ui.Prims.Texts.{
  bytes_of, byte_list, byte_at, prim_cn, prim_hdstr, prim_tlstr, prim_pos, prim_char_code,
  prim_str_to_bytes, prim_bytes_to_string, prim_string_to_n, bytes_result, clamp, prim_substring,
}
use fx_ui.Prims.Texts.Cut.{to_int_same}

abbrev pub AllBytes : Bytes → Type 0
AllBytes s = All (λ b. b < 256) s

bytes_of-byte_list : (s : Bytes) → AllBytes s → bytes_of (byte_list s) ≡ some s
unfolding bytes_of byte_list
bytes_of-byte_list [] h = refl
bytes_of-byte_list (b ∷ bs) h =
    let low = h.0 in
    let same : b % 256 ≡ b = omega arith in rw (bytes_of-byte_list bs h.1, same) refl

bytes_result-cons :
    {W : Type 0} (w : W) (s : Bytes) (st : List Value)
    → AllBytes s
    → prim_bytes_to_string w (byte_list s ∷ st) ≡ PrimResult.primed (Value.string s) st w
unfolding prim_bytes_to_string byte_list
bytes_result-cons w [] st h = refl
bytes_result-cons w (b ∷ bs) st h = ap (λ o. bytes_result w o st) (bytes_of-byte_list (b ∷ bs) h)

module _ {W : Type 0} (w : W) where
  -- The list of bytes of a string is turned back into the string.
  pub prim_bytes_to_string_lem :
      (s : Bytes) (st : List Value)
      → AllBytes s
      → (l : Value) × (prim_str_to_bytes w (Value.string s ∷ st) ≡ PrimResult.primed l st w)
        × (prim_bytes_to_string w (l ∷ st) ≡ PrimResult.primed (Value.string s) st w)
  unfolding prim_str_to_bytes
  prim_bytes_to_string_lem s st h = (byte_list s, refl, bytes_result-cons w s st h)

  prim_cn_strings :
      (a b : Bytes) (st : List Value)
      → length (a ++ b) < 2 ^ 31
      → prim_cn w (Value.string a ∷ Value.string b ∷ st)
        ≡ PrimResult.primed (Value.string (a ++ b)) st w
  unfolding prim_cn
  prim_cn_strings a b st h =
      let fits : leb (2 ^ 31) (length (a ++ b)) ≡ false = ground arith in rw fits refl

  -- A string that is not empty is the `cn` of its head and its tail.
  pub prim_cn-hdstr_tlstr :
      (b : ℕ) (bs : Bytes) (st : List Value)
      → length (b ∷ bs) < 2 ^ 31
      → (h t : Value) × (prim_hdstr w (Value.string (b ∷ bs) ∷ st) ≡ PrimResult.primed h st w)
        × (prim_tlstr w (Value.string (b ∷ bs) ∷ st) ≡ PrimResult.primed t st w)
        × (prim_cn w (h ∷ t ∷ st) ≡ PrimResult.primed (Value.string (b ∷ bs)) st w)
  unfolding prim_hdstr prim_tlstr
  prim_cn-hdstr_tlstr b bs st h =
      (Value.string (b ∷ []), Value.string bs, refl, refl, prim_cn_strings (b ∷ []) bs st h)

  byte_there :
      (s : Bytes) (i : ℕ)
      → i < length s
      → (b : ℕ) × (get_elem? s i ≡ some b) × (take 1 (drop i s) ≡ b ∷ [])
  byte_there [] i h = elim h [ ]
  byte_there (c ∷ cs) zero h = (c, refl, refl)
  byte_there (c ∷ cs) (suc i) h = byte_there cs i (omega arith)

  -- Within the string `pos` is the `substring` of length 1, and `char-code` its number, whether or
  -- not errors are caught.
  pub prim_pos-substring :
      (catching : Option Bool) (s : Bytes) (i : ℕ) (st : List Value)
      → length s < 2 ^ 31
      → i < length s
      → (b : ℕ) × (prim_pos w catching (Value.string s ∷ Value.number (pos i) ∷ st)
          ≡ PrimResult.primed (Value.string (b ∷ [])) st w)
        × (prim_substring w (Value.string s ∷ Value.number (pos i) ∷ Value.number (pos 1) ∷ st)
            ≡ PrimResult.primed (Value.string (b ∷ [])) st w)
        × (prim_char_code w (Value.string s ∷ Value.number (pos i) ∷ st)
            ≡ prim_string_to_n w (Value.string (b ∷ []) ∷ st))
  unfolding prim_pos prim_substring prim_char_code prim_string_to_n byte_at clamp
  prim_pos-substring catching s i st fits low =
      let (b, e, t) = byte_there s i low in
      let same = to_int_same (pos i) (omega arith) in
      let one = to_int_same (pos 1) (omega arith) in
      let a : ltb (length s) i ≡ false = ground arith in
      let c : leb (2 ^ 31) (i + 1) ≡ false = ground arith in
      let d : ltb (length s) (i + 1) ≡ false = ground arith in
      (b, rw (same, e) refl, rw (same, one, a, c, d, t) refl, rw (same, e) refl)
