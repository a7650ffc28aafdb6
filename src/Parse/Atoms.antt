-- ===== src/Parse/Atoms.antt =====
-- reference/shen-gc/zincvm.c: blanks, opcodes and atoms are read back.
use fx_ui.Base.{
  ℕ, ◌≡◌, ◌≢◌, refl, ◌∙◌, ap, true, false, [], ◌∷◌, ◌++◌, arith, leb, ◌==◌, length, length-append,
  take-length_append, drop-length_append, All,
}
use fx_ui.Base.Bytes.{Bytes, byte_eq}
use fx_ui.Value.{Value, Opcode}
use fx_ui.Value.Opcodes.{opcode_to_char}
use fx_ui.Parse.Reader.{
  parsed, is_space, is_digit, expect, any_char, skip_ws, take_bytes, until_nul, atom_value,
  parse_csexp_atom,
}
use fx_ui.Parse.Body.{Shape, shape_of}
use fx_ui.Parse.Encode.{encode_atom, decimal_ℤ, encode_value, Operand, operand_of, Fits, IsAtom}
use fx_ui.Parse.Decimal.{parse_int-decimal, atol-decimal_ℤ}

abbrev pub AllSpaces : Bytes → Type 0
AllSpaces sep = All (λ c. is_space c ≡ true) sep

pub skip_ws-append :
    (sep : Bytes) (c : ℕ) (rest : Bytes)
    → AllSpaces sep
    → is_space c ≡ false
    → skip_ws (sep ++ c ∷ rest) ≡ c ∷ rest
unfolding skip_ws
skip_ws-append [] c rest h e = rw e refl
skip_ws-append (s ∷ sep) c rest h e = rw h.0 (skip_ws-append sep c rest h.1 e)

take_bytes-append : (xs ys : Bytes) → take_bytes (length xs) (xs ++ ys) ≡ parsed xs ys
unfolding take_bytes
take_bytes-append xs ys =
    let long = length-append xs ys in
    let enough : leb (length xs) (length (xs ++ ys)) ≡ true = ground (arith, long) in
    rw (enough, take-length_append xs ys, drop-length_append xs ys) refl

pub until_nul-eq : (s : Bytes) → All (λ c. c ≢ 0) s → until_nul s ≡ s
unfolding until_nul
until_nul-eq [] h = refl
until_nul-eq (c ∷ cs) h =
    let positive = h.0 in
    let test : (c == 0) ≡ false = ground arith in rw test (ap (λ l. c ∷ l) (until_nul-eq cs h.1))

-- What the parser expects after an opcode with such an operand.
abbrev pub shape_for : Operand → Shape
shape_for Operand.nothing = Shape.bare
shape_for Operand.atom = Shape.with_atom
shape_for Operand.body = Shape.with_code
shape_for Operand.no_opcode = Shape.unknown

pub shape_of-opcode_to_char :
    (op : Opcode) → shape_of (opcode_to_char op) ≡ shape_for (operand_of op)
unfolding shape_of opcode_to_char
shape_of-opcode_to_char Opcode.access = refl
shape_of-opcode_to_char _ = refl

pub is_space-opcode_to_char : (op : Opcode) → is_space (opcode_to_char op) ≡ false
unfolding is_space opcode_to_char
is_space-opcode_to_char Opcode.access = refl
is_space-opcode_to_char _ = refl

module _ (sep : Bytes) (spaces : AllSpaces sep) where
  parse_csexp_atom-encode_atom :
      (type : ℕ) (payload rest : Bytes)
      → Fits payload
      → parse_csexp_atom (sep ++ encode_atom type payload rest) ≡ atom_value type payload rest
  unfolding parse_csexp_atom encode_atom is_space is_digit expect any_char
  parse_csexp_atom-encode_atom type payload rest h =
      rw
        (
          skip_ws-append sep b'[' _ spaces refl,
          parse_int-decimal (length payload) b':' (type ∷ b']' ∷ (payload ++ rest)) h refl,
          take_bytes-append payload rest,
        )
        refl

  pub parse_csexp_atom-encode_value :
      (v : Value) (rest : Bytes)
      → IsAtom v
      → parse_csexp_atom (sep ++ encode_value v rest) ≡ parsed v rest
  unfolding encode_value atom_value byte_eq
  parse_csexp_atom-encode_value (Value.number z) rest h =
      parse_csexp_atom-encode_atom b'n' (decimal_ℤ z) rest h.0 ∙ rw (atol-decimal_ℤ z h.1) refl
  parse_csexp_atom-encode_value (Value.string s) rest h = parse_csexp_atom-encode_atom b'S' s rest h
  parse_csexp_atom-encode_value (Value.symbol s) rest h =
      parse_csexp_atom-encode_atom b's' s rest h.0 ∙ rw (until_nul-eq s h.1) refl
  parse_csexp_atom-encode_value (Value.boolean true) rest h =
      parse_csexp_atom-encode_atom b'b' _ rest (omega arith)
  parse_csexp_atom-encode_value (Value.boolean false) rest h =
      parse_csexp_atom-encode_atom b'b' _ rest (omega arith)
  parse_csexp_atom-encode_value (Value.cons a b) rest h = elim h [ ]
  parse_csexp_atom-encode_value Value.nil rest h = elim h [ ]
  parse_csexp_atom-encode_value (Value.lambda a b) rest h = elim h [ ]
  parse_csexp_atom-encode_value Value.mark rest h = elim h [ ]
  parse_csexp_atom-encode_value (Value.prim a) rest h = elim h [ ]
  parse_csexp_atom-encode_value (Value.error a) rest h = elim h [ ]
  parse_csexp_atom-encode_value (Value.vector a b) rest h = elim h [ ]
  parse_csexp_atom-encode_value (Value.stream a b c) rest h = elim h [ ]
