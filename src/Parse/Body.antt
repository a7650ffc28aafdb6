-- ===== src/Parse/Body.antt =====
-- reference/shen-gc/zincvm.c: `parse_body`, `parse_csexp_list` and `parse_bytecode`.
use fx_ui.Base.{ℕ, zero, suc, ◌+◌, ◌||◌, [], ◌∷◌, ◌==◌, if◌then◌else◌, length}
use fx_ui.Base.Bytes.{Bytes}
use fx_ui.Base.Int.{pos}
use fx_ui.Value.{Instr, Code, no_operand, instr, stop, step}
use fx_ui.Value.Opcodes.{char_to_opcode}
use fx_ui.Parse.Reader.{Parsed, and_then, skip_ws, expect, parse_csexp_atom}

-- What the character of an instruction calls for.
pub data Shape : Type 0 where
  ends nested bare with_atom with_code unknown : Shape

unfoldable pub shape_of : ℕ → Shape
shape_of c =
    if c == b')' || c == 0
    then Shape.ends
    else if c == b'('
    then Shape.nested
    else if c == b'm' || c == b'p' || c == b'r' || c == b'v' || c == b'e' || c == b'd' || c == b't'
    then Shape.bare
    else if c == b'a'
        || c == b'f'
        || c == b'j'
        || c == b'n'
        || c == b'g'
        || c == b's'
        || c == b'P'
        || c == b'S'
        || c == b'b'
    then Shape.with_atom
    else if c == b'c'
    then Shape.with_code
    else Shape.unknown

-- `scratch[len++] = instr`, and the rest of the body.
abbrev pub then_step : (Bytes → Parsed Code) → Instr → Bytes → Parsed Code
then_step body i bs = and_then (body bs) λ code rest. Parsed.parsed (step i code) rest

-- One instruction and the rest, with `body` for the body parser on a shorter text.
abbrev pub parse_step : (Bytes → Parsed Code) → Shape → ℕ → Bytes → Parsed Code
parse_step body Shape.ends c bs = Parsed.parsed stop (c ∷ bs)
parse_step body Shape.nested c bs = Parsed.failed
parse_step body Shape.bare c bs =
    then_step body (instr (char_to_opcode c) no_operand stop (pos 0)) bs
parse_step body Shape.with_atom c bs =
    and_then (parse_csexp_atom bs)
      λ v rest. then_step body (instr (char_to_opcode c) v stop (pos 0)) rest
parse_step body Shape.with_code c bs = and_then (expect b'(' (skip_ws bs)) λ _ b1.
    and_then (body b1) λ code b2.
      and_then (expect b')' b2)
        λ _ b3. then_step body (instr (char_to_opcode c) no_operand code (pos 0)) b3
parse_step body Shape.unknown c bs = Parsed.failed

abbrev pub parse_from : (Bytes → Parsed Code) → Bytes → Parsed Code
parse_from body [] = Parsed.parsed stop []
parse_from body (c ∷ bs) = parse_step body (shape_of c) c bs

-- The loop and the nested calls share the fuel, one unit for each instruction.
unfoldable pub parse_body : ℕ → Bytes → Parsed Code
parse_body zero bs = Parsed.starved
parse_body (suc f) bs = parse_from (parse_body f) (skip_ws bs)

unfoldable pub parse_csexp_list : ℕ → Bytes → Parsed Code
parse_csexp_list f bs = and_then (expect b'(' (skip_ws bs)) λ _ b1.
    and_then (parse_body f b1) λ code b2. and_then (expect b')' b2) λ _ b3. Parsed.parsed code b3

-- `failed` is the result 0 with a null pointer.
unfoldable pub parse_bytecode : Bytes → Parsed Code
parse_bytecode bs = parse_csexp_list (length bs + 1) bs
