-- ===== src/Value.antt =====
-- reference/shen-gc/zinctypes.h: opcodes, values and instructions.
--
-- A `Value` is a tree: cons cells, closures and strings are never written after they are built.
-- A vector is written in place, so it is the address of its element array and a length, and the
-- elements stand in a store. The `char *` of a symbol is canonical for its bytes. `boolean` is
-- built from comparisons and the constants 0 and 1 only, so it is a `Bool`.
pub mod Opcodes
pub mod Equal
pub mod Marshal
use fx_ui.Base.{ℕ, zero, suc, ◌+◌, ◌≡◌, refl, ap, Bool, true, false, Option, none, some, arith}
use fx_ui.Base.Bytes.{Bytes, codes}
use fx_ui.Base.Int.{ℤ, pos}

-- `Opcode`; `unknown` is `OP_COUNT`.
pub data Opcode : Type 0 where
  access global jmpf jmp appterm apply pushmark cur grab return let_op endlet : Opcode
  num_op str_op sym_op bool_op prim_op unknown : Opcode

-- A list inside the block is a type of the block: `Values` is an environment array, `Code` an
-- array of instructions, each with its length.
mutual
  pub data Value : Type 0 where
    number : ℤ → Value
    string : Bytes → Value
    symbol : Bytes → Value
    boolean : Bool → Value
    cons : Value → Value → Value
    nil : Value
    lambda : Code → Values → Value
    mark : Value
    prim : Bytes → Value
    error : Bytes → Value
    vector : ℕ → ℕ → Value
    stream : ℕ → Bool → Bool → Value

  pub data Values : Type 0 where
    empty : Values
    entry : Value → Values → Values

  pub data Instr : Type 0 where
    instr : Opcode → Value → Code → ℤ → Instr

  pub data Code : Type 0 where
    stop : Code
    step : Instr → Code → Code

-- An operand that the source leaves zeroed: `memset` gives the number 0.
abbrev pub no_operand : Value
no_operand = number (pos 0)

-- The elements of the vectors: the address of the array and an index.
abbrev pub Store : Type 0
Store = ℕ → ℕ → Value

abbrev pub size : Values → ℕ
size empty = 0
size (entry v vs) = suc (size vs)

abbrev pub fetch : Values → ℕ → Option Value
fetch empty i = none
fetch (entry v vs) zero = some v
fetch (entry v vs) (suc i) = fetch vs i

abbrev pub append : Values → Values → Values
append empty ws = ws
append (entry v vs) ws = entry v (append vs ws)

abbrev pub code_len : Code → ℕ
code_len stop = 0
code_len (step i c) = suc (code_len c)

abbrev pub code_at : Code → ℕ → Option Instr
code_at stop n = none
code_at (step i c) zero = some i
code_at (step i c) (suc n) = code_at c n

pub size-append : (vs ws : Values) → size (append vs ws) ≡ size vs + size ws
size-append empty ws = omega arith
size-append (entry v vs) ws = omega (arith, size-append vs ws)

pub append-empty : (vs : Values) → append vs empty ≡ vs
append-empty empty = refl
append-empty (entry v vs) = ap (entry v) (append-empty vs)

pub append_assoc : (us vs ws : Values) → append (append us vs) ws ≡ append us (append vs ws)
append_assoc empty vs ws = refl
append_assoc (entry u us) vs ws = ap (entry u) (append_assoc us vs ws)
