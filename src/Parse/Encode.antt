-- ===== src/Parse/Encode.antt =====
-- The csexp text of code, as the compiler writes it (elm-compiler/src/Zinc/Csexp.elm): an atom is
-- `[length:type]` and its bytes, an instruction its opcode and its operand, a closure body a list.
-- `sep` stands between the elements; the compiler writes one space.
use fx_ui.Base.{
  ℕ, zero, suc, ◌+◌, ◌/◌, ◌%◌, ◌^◌, ◌<◌, ◌≡◌, ◌≢◌, Bool, true, false, [], ◌∷◌, ◌++◌, ltb,
  if◌then◌else◌, length, All,
}
use fx_ui.Base.Bytes.{Bytes, codes}
use fx_ui.Base.Int.{ℤ, pos, negsuc}
use fx_ui.Parse.Reader.{fits_long}
use fx_ui.Value.{Value, Instr, Code, Opcode, no_operand, instr, stop, step}
use fx_ui.Value.Opcodes.{opcode_to_char}

-- The decimal digits of `n`, for `n < f`.
unfoldable pub digits : ℕ → ℕ → Bytes
digits zero n = []
digits (suc f) n =
    let more = digits f (n / 10) ++ (b'0' + n % 10) ∷ [] in
    if ltb n 10 then (b'0' + n) ∷ [] else more

unfoldable pub decimal : ℕ → Bytes
decimal n = digits (n + 1) n

unfoldable pub decimal_ℤ : ℤ → Bytes
decimal_ℤ (pos n) = decimal n
decimal_ℤ (negsuc n) = b'-' ∷ decimal (n + 1)

-- The text of an atom, and after it `rest`.
unfoldable pub encode_atom : ℕ → Bytes → Bytes → Bytes
encode_atom type payload rest =
    b'[' ∷ (decimal (length payload) ++ b':' ∷ type ∷ b']' ∷ (payload ++ rest))

abbrev pub bool_text : Bool → Bytes
bool_text true = codes "true"
bool_text false = codes "false"

unfoldable pub encode_value : Value → Bytes → Bytes
encode_value (Value.number z) rest = encode_atom b'n' (decimal_ℤ z) rest
encode_value (Value.string s) rest = encode_atom b'S' s rest
encode_value (Value.symbol s) rest = encode_atom b's' s rest
encode_value (Value.boolean b) rest = encode_atom b'b' (bool_text b) rest
encode_value v rest = rest

-- What an opcode is written with.
pub data Operand : Type 0 where
  nothing atom body no_opcode : Operand

abbrev pub operand_of : Opcode → Operand
operand_of Opcode.access = Operand.atom
operand_of Opcode.global = Operand.atom
operand_of Opcode.jmpf = Operand.atom
operand_of Opcode.jmp = Operand.atom
operand_of Opcode.num_op = Operand.atom
operand_of Opcode.str_op = Operand.atom
operand_of Opcode.sym_op = Operand.atom
operand_of Opcode.bool_op = Operand.atom
operand_of Opcode.prim_op = Operand.atom
operand_of Opcode.cur = Operand.body
operand_of Opcode.unknown = Operand.no_opcode
operand_of _ = Operand.nothing

abbrev pub with_operand : Bytes → Operand → Bytes → Bytes → Bytes → Bytes
with_operand sep Operand.nothing value code rest = rest
with_operand sep Operand.atom value code rest = sep ++ value
with_operand sep Operand.body value code rest = sep ++ b'(' ∷ code
with_operand sep Operand.no_opcode value code rest = rest

unfoldable mutual
  pub encode_instr : Bytes → Instr → Bytes → Bytes
  encode_instr sep (instr op v c t) rest =
      opcode_to_char op
      ∷ with_operand sep (operand_of op) (encode_value v rest)
          (encode_code sep c (sep ++ b')' ∷ rest)) rest

  pub encode_code : Bytes → Code → Bytes → Bytes
  encode_code sep stop rest = rest
  encode_code sep (step i c) rest = sep ++ encode_instr sep i (encode_code sep c rest)

unfoldable pub encode_list : Bytes → Code → Bytes
encode_list sep c = sep ++ b'(' ∷ encode_code sep c (sep ++ b')' ∷ [])

-- The length of an atom is written and read as an `int`, and its number as a `long`.
abbrev pub Fits : Bytes → Type 0
Fits s = length s < 2 ^ 31

abbrev pub IsAtom : Value → Type 0
IsAtom (Value.number z) = Fits (decimal_ℤ z) × (fits_long z ≡ true)
IsAtom (Value.string s) = Fits s
IsAtom (Value.symbol s) = Fits s × All (λ c. c ≢ 0) s
IsAtom (Value.boolean b) = Unit
IsAtom _ = ⊥

-- What is not written is as the parser leaves it.
abbrev pub OperandFits : Operand → Value → Code → Type 0 → Type 0
OperandFits Operand.nothing v c inner = (v ≡ no_operand) × (c ≡ stop)
OperandFits Operand.atom v c inner = IsAtom v × (c ≡ stop)
OperandFits Operand.body v c inner = (v ≡ no_operand) × inner
OperandFits Operand.no_opcode v c inner = ⊥

abbrev mutual
  pub InstrFits : Instr → Type 0
  InstrFits (instr op v c t) = OperandFits (operand_of op) v c (CodeFits c) × (t ≡ pos 0)

  pub CodeFits : Code → Type 0
  CodeFits stop = Unit
  CodeFits (step i c) = InstrFits i × CodeFits c
