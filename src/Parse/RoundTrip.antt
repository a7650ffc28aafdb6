-- ===== src/Parse/RoundTrip.antt =====
-- reference/shen-gc/zincvm.c: the parser reads the compiler's text of code back.
use fx_ui.Base.{ℕ, zero, suc, ◌+◌, ◌≤◌, ◌<◌, ◌≡◌, refl, [], ◌∷◌, ◌++◌, arith, length, length-append}
use fx_ui.Base.Bytes.{Bytes}
use fx_ui.Base.Int.{pos}
use fx_ui.Value.{Value, Instr, Code, Opcode, instr, stop, step}
use fx_ui.Value.Opcodes.{opcode_to_char, char_to_opcode-opcode_to_char}
use fx_ui.Parse.Reader.{Parsed, parsed, is_space, expect}
use fx_ui.Parse.Body.{shape_of, parse_step, parse_body, parse_csexp_list, parse_bytecode}
use fx_ui.Parse.Encode.{
  encode_atom, decimal, decimal_ℤ, bool_text, encode_value, Operand, operand_of, with_operand,
  encode_instr, encode_code, encode_list, IsAtom, OperandFits, CodeFits,
}
use fx_ui.Parse.Atoms.{
  AllSpaces, skip_ws-append, shape_for, shape_of-opcode_to_char, is_space-opcode_to_char,
  parse_csexp_atom-encode_value,
}

-- The instructions, with those of closure bodies.
abbrev mutual
  instr_count : Instr → ℕ
  instr_count (instr op v c t) = count c

  pub count : Code → ℕ
  count stop = 0
  count (step i c) = instr_count i + count c + 1

module _ (sep : Bytes) (spaces : AllSpaces sep) where
  -- The parser, on the rest of a body and on a closure body.
  abbrev Reads : ℕ → Code → Bytes → Bytes → Type 0
  Reads f c text rest = parse_body f text ≡ parsed c rest

  parse_step-with_operand :
      (f : ℕ) (o : Operand) (op : Opcode) (v : Value) (c code : Code) (text tail : Bytes)
      → OperandFits o v c (CodeFits c)
      → Reads f code text tail
      → (CodeFits c → Reads f c (encode_code sep c (sep ++ b')' ∷ text)) (b')' ∷ text))
      → parse_step
          (parse_body f)
          (shape_for o)
          (opcode_to_char op)
          (with_operand sep o (encode_value v text) (encode_code sep c (sep ++ b')' ∷ text)) text)
        ≡ parsed (step (instr op v c (pos 0)) code) tail
  unfolding expect is_space
  parse_step-with_operand f Operand.nothing op v c code text tail fits reads inner =
      rw (reads, char_to_opcode-opcode_to_char op, fits.0, fits.1) refl
  parse_step-with_operand f Operand.atom op v c code text tail fits reads inner =
      rw
        (
          parse_csexp_atom-encode_value sep spaces v text fits.0,
          reads,
          char_to_opcode-opcode_to_char op,
          fits.1,
        )
        refl
  parse_step-with_operand f Operand.body op v c code text tail fits reads inner =
      rw
        (
          skip_ws-append sep b'(' (encode_code sep c (sep ++ b')' ∷ text)) spaces refl,
          inner fits.1,
          reads,
          char_to_opcode-opcode_to_char op,
          fits.0,
        )
        refl
  parse_step-with_operand f Operand.no_opcode op v c code text tail fits reads inner = elim fits [ ]

  parse_body-encode_code :
      (f : ℕ) (c : Code) (rest : Bytes)
      → CodeFits c
      → count c < f
      → Reads f c (encode_code sep c (sep ++ b')' ∷ rest)) (b')' ∷ rest)
  unfolding parse_body encode_code is_space shape_of
  parse_body-encode_code zero c rest fits h = elim h [ ]
  parse_body-encode_code (suc f) stop rest fits h =
      rw (skip_ws-append sep b')' rest spaces refl) refl
  parse_body-encode_code (suc f) (step (instr op v c t) code) rest fits h =
      rw
        (
          skip_ws-append sep (opcode_to_char op) _ spaces (is_space-opcode_to_char op),
          shape_of-opcode_to_char op,
          fits.0.1,
        )
        (parse_step-with_operand f (operand_of op) op v c code _ (b')' ∷ rest) fits.0.0
          (parse_body-encode_code f code rest fits.1 (omega arith))
          (λ inner. parse_body-encode_code f c _ inner (omega arith)))

length-encode_atom :
    (type : ℕ) (payload rest : Bytes) → length rest ≤ length (encode_atom type payload rest)
unfolding encode_atom
length-encode_atom type payload rest =
    let inner = length-append payload rest in
    let outer = length-append (decimal (length payload)) (b':' ∷ type ∷ b']' ∷ (payload ++ rest)) in
    omega (arith, inner, outer)

pub length-encode_value :
    (v : Value) (rest : Bytes) → IsAtom v → length rest ≤ length (encode_value v rest)
unfolding encode_value
length-encode_value (Value.number z) rest h = length-encode_atom b'n' (decimal_ℤ z) rest
length-encode_value (Value.string s) rest h = length-encode_atom b'S' s rest
length-encode_value (Value.symbol s) rest h = length-encode_atom b's' s rest
length-encode_value (Value.boolean b) rest h = length-encode_atom b'b' (bool_text b) rest
length-encode_value _ rest h = omega arith

module _ (sep : Bytes) where
  length-with_operand :
      (o : Operand) (v : Value) (c : Code) (text : Bytes)
      → OperandFits o v c (CodeFits c)
      → (CodeFits c
          → count c + length (sep ++ b')' ∷ text) ≤ length (encode_code sep c (sep ++ b')' ∷ text)))
      → count c + length text
        ≤ length
            (with_operand sep o (encode_value v text) (encode_code sep c (sep ++ b')' ∷ text)) text)
  length-with_operand Operand.nothing v c text fits inner = rw fits.1 (omega arith)
  length-with_operand Operand.atom v c text fits inner =
      let written = length-encode_value v text fits.0 in
      let spaced = length-append sep (encode_value v text) in
      rw fits.1 (omega (arith, written, spaced))
  length-with_operand Operand.body v c text fits inner =
      let code = encode_code sep c (sep ++ b')' ∷ text) in
      let counted = inner fits.1 in
      let closed = length-append sep (b')' ∷ text) in
      let spaced = length-append sep (b'(' ∷ code) in omega (arith, counted, closed, spaced)
  length-with_operand Operand.no_opcode v c text fits inner = elim fits [ ]

  pub length-encode_code :
      (c : Code) (rest : Bytes)
      → CodeFits c
      → count c + length rest ≤ length (encode_code sep c rest)
  unfolding encode_code
  length-encode_code stop rest fits = omega arith
  length-encode_code (step (instr op v c t) code) rest fits =
      let text = encode_code sep code rest in
      let operand =
        length-with_operand (operand_of op) v c text fits.0.0
          (λ h. length-encode_code c (sep ++ b')' ∷ text) h) in
      let more = length-encode_code code rest fits.1 in
      let spaced = length-append sep (encode_instr sep (instr op v c t) text) in
      omega (arith, operand, more, spaced)

-- A list of code, with more text after it.
pub parse_csexp_list-encode_code :
    (sep : Bytes) (c : Code) (rest : Bytes)
    → AllSpaces sep
    → CodeFits c
    → parse_csexp_list
        (length (sep ++ b'(' ∷ encode_code sep c (sep ++ b')' ∷ rest)) + 1)
        (sep ++ b'(' ∷ encode_code sep c (sep ++ b')' ∷ rest))
      ≡ Parsed.parsed c rest
unfolding parse_csexp_list expect is_space
parse_csexp_list-encode_code sep c rest spaces fits =
    let text = encode_code sep c (sep ++ b')' ∷ rest) in
    let long = length-encode_code sep c (sep ++ b')' ∷ rest) fits in
    let all = length-append sep (b'(' ∷ text) in
    let fuel : count c < length (sep ++ b'(' ∷ text) + 1 = omega (arith, long, all) in
    rw
      (
        skip_ws-append sep b'(' text spaces refl,
        parse_body-encode_code sep spaces (length (sep ++ b'(' ∷ text) + 1) c rest fits fuel,
      )
      refl

-- The text of code is parsed to that code and read to its end, whatever blanks are written between
-- the elements: for code as the parser builds it, its atoms shorter than 2^31 bytes, its numbers in
-- the range of a `long`, its symbols without a NUL.
pub parse_bytecode-encode_list :
    (sep : Bytes) (c : Code)
    → AllSpaces sep
    → CodeFits c
    → parse_bytecode (encode_list sep c) ≡ Parsed.parsed c []
unfolding parse_bytecode encode_list
parse_bytecode-encode_list sep c spaces fits = parse_csexp_list-encode_code sep c [] spaces fits
