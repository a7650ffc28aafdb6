-- ===== src/Value/Opcodes.antt =====
-- reference/shen-gc/zinctypes.h: the opcode characters, `char_to_opcode` and `opcode_to_char`.
use fx_ui.Base.{ℕ, ◌≡◌, ◌≢◌, refl, arith, ◌==◌, if◌then◌else◌}
use fx_ui.Value.{Opcode}

unfoldable pub char_to_opcode : ℕ → Opcode
char_to_opcode c =
    if c == b'a'
    then Opcode.access
    else if c == b'g'
    then Opcode.global
    else if c == b'f'
    then Opcode.jmpf
    else if c == b'j'
    then Opcode.jmp
    else if c == b't'
    then Opcode.appterm
    else if c == b'p'
    then Opcode.apply
    else if c == b'm'
    then Opcode.pushmark
    else if c == b'c'
    then Opcode.cur
    else if c == b'r'
    then Opcode.grab
    else if c == b'v'
    then Opcode.return
    else if c == b'e'
    then Opcode.let_op
    else if c == b'd'
    then Opcode.endlet
    else if c == b'n'
    then Opcode.num_op
    else if c == b'S'
    then Opcode.str_op
    else if c == b's'
    then Opcode.sym_op
    else if c == b'b'
    then Opcode.bool_op
    else if c == b'P'
    then Opcode.prim_op
    else Opcode.unknown

unfoldable pub opcode_to_char : Opcode → ℕ
opcode_to_char Opcode.access = b'a'
opcode_to_char Opcode.global = b'g'
opcode_to_char Opcode.jmpf = b'f'
opcode_to_char Opcode.jmp = b'j'
opcode_to_char Opcode.appterm = b't'
opcode_to_char Opcode.apply = b'p'
opcode_to_char Opcode.pushmark = b'm'
opcode_to_char Opcode.cur = b'c'
opcode_to_char Opcode.grab = b'r'
opcode_to_char Opcode.return = b'v'
opcode_to_char Opcode.let_op = b'e'
opcode_to_char Opcode.endlet = b'd'
opcode_to_char Opcode.num_op = b'n'
opcode_to_char Opcode.str_op = b'S'
opcode_to_char Opcode.sym_op = b's'
opcode_to_char Opcode.bool_op = b'b'
opcode_to_char Opcode.prim_op = b'P'
opcode_to_char Opcode.unknown = b'?'

-- The character of an opcode is read back as that opcode.
pub char_to_opcode-opcode_to_char : (op : Opcode) → char_to_opcode (opcode_to_char op) ≡ op
unfolding char_to_opcode opcode_to_char
char_to_opcode-opcode_to_char Opcode.access = refl
char_to_opcode-opcode_to_char _ = refl

-- A character that is read as an opcode of the machine is printed for that opcode.
pub opcode_to_char-char_to_opcode :
    (c : ℕ) → char_to_opcode c ≢ Opcode.unknown → opcode_to_char (char_to_opcode c) ≡ c
unfolding char_to_opcode opcode_to_char
opcode_to_char-char_to_opcode c h = ground arith
