-- ===== src/Tests/Texts.antt =====
-- Runs of the bytecode reader.
use fx_ui.Base.{◌≡◌, refl, [], arith}
use fx_ui.Base.Bytes.{Bytes, codes}
use fx_ui.Base.Int.{pos}
use fx_ui.Value.{Value, Code, Opcode, instr, no_operand, stop, step}
use fx_ui.Parse.Reader.{parsed, is_space}
use fx_ui.Parse.Body.{parse_bytecode}
use fx_ui.Parse.Encode.{encode_list, decimal_ℤ, decimal, digits}
use fx_ui.Parse.RoundTrip.{parse_bytecode-encode_list}
use fx_ui.Parse.Jumps.{resolve_jumps, AllResolved, bare, resolve_jumps_lem}

abbrev blank : Bytes
blank = codes " "

-- `m n[1:n]7 c(a[1:n]0 v) p`, with the blanks.
abbrev call : Code
call = step (instr Opcode.pushmark no_operand stop (pos 0)) (
    step (instr Opcode.num_op (Value.number (pos 7)) stop (pos 0)) (
      step
        (instr Opcode.cur no_operand
          (step (instr Opcode.access no_operand stop (pos 0))
            (step (instr Opcode.return no_operand stop (pos 0)) stop))
          (pos 0))
        (step (instr Opcode.apply no_operand stop (pos 0)) stop)))

parse_bytecode-encode_list_example : parse_bytecode (encode_list blank call) ≡ parsed call []
unfolding decimal_ℤ decimal digits is_space
parse_bytecode-encode_list_example =
    parse_bytecode-encode_list blank call (refl, tt)
      (
        ((refl, refl), refl),
        (
          (((omega arith, refl), refl), refl),
          (
            ((refl, ((((omega arith, refl), refl), refl), (((refl, refl), refl), tt))), refl),
            (((refl, refl), refl), tt),
          ),
        ),
      )

abbrev jump : Code
jump = step (instr Opcode.jmpf (Value.number (pos 3)) stop (pos 0)) stop

resolve_jumps_lem_example :
    AllResolved (resolve_jumps jump)
    × (bare (resolve_jumps jump) ≡ bare jump)
    × (resolve_jumps (resolve_jumps jump) ≡ resolve_jumps jump)
resolve_jumps_lem_example = resolve_jumps_lem jump
