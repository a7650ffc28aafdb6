-- ===== src/Prims/Print.antt =====
-- reference/shen-gc/zincvm.c: the primitive `str`, and `str_value`, which prints into a buffer that
-- is made larger until the text fits.
--
-- A buffer is the bytes written so far: `pos` is its length. `room` is `bufsize - 1`.
pub mod Laws
use fx_ui.Base.{
  ℕ, zero, suc, ◌-◌, ◌*◌, ◌^◌, Bool, true, false, Option, none, some, List, [], ◌∷◌, ◌++◌, ltb, leb,
  if◌then◌else◌, length, take,
}
use fx_ui.Base.Bytes.{Bytes, codes}
use fx_ui.Base.Int.{pos}
use fx_ui.Value.{Value}
use fx_ui.Machine.State.{PrimResult}
use fx_ui.Parse.Reader.{until_nul}
use fx_ui.Parse.Encode.{decimal, decimal_ℤ, bool_text}
use fx_ui.Prims.{Popped}

abbrev pub is_full : ℕ → Bytes → Bool
is_full room buf = leb room (length buf)

-- What does not fit is cut off.
unfoldable pub sv_append : ℕ → Bytes → Bytes → Bytes
sv_append room text buf = if is_full room buf then buf else buf ++ take (room - length buf) text

-- What is printed for a value that is no cons cell; `%.*s` ends at a NUL.
abbrev pub atom_text : Value → Bytes
atom_text (Value.symbol s) = s
atom_text (Value.string s) = codes "\"" ++ (until_nul s ++ codes "\"")
atom_text (Value.number z) = decimal_ℤ z
atom_text (Value.boolean b) = bool_text b
atom_text Value.nil = codes "[]"
atom_text (Value.error m) = codes "<error " ++ (m ++ codes ">")
atom_text (Value.lambda c e) = codes "<lambda>"
atom_text (Value.prim p) = codes "<prim " ++ (p ++ codes ">")
atom_text (Value.vector a n) = codes "<vector " ++ (decimal n ++ codes ">")
atom_text (Value.stream f i s) = codes "<stream>"
atom_text v = codes "<unknown>"

-- `levels` is `101 - depth`.
abbrev pub atom_at : ℕ → Value → Bytes
atom_at zero v = codes "..."
atom_at (suc levels) v = atom_text v

-- `str_cells` is the `while` from the cell behind the first, with what follows it.
unfoldable mutual
  pub str_value : ℕ → ℕ → Value → Bytes → Bytes
  str_value room zero (Value.cons a d) buf = sv_append room (codes "...") buf
  str_value room (suc levels) (Value.cons a d) buf =
      let first = str_value room levels a (sv_append room (codes "[") buf) in
      let all = str_cells room levels d first in
      sv_append room (codes "]") (
        if is_full room (sv_append room (codes "[") buf)
        then sv_append room (codes "[") buf
        else all)
  str_value room levels v buf = sv_append room (atom_at levels v) buf

  pub str_cells : ℕ → ℕ → Value → Bytes → Bytes
  str_cells room levels (Value.cons a d) buf =
      let next = str_value room levels a (sv_append room (codes " ") buf) in
      let all = str_cells room levels d next in if is_full room buf then buf else all
  str_cells room levels Value.nil buf = buf
  str_cells room levels v buf =
      if is_full room buf
      then buf
      else sv_append room (atom_at levels v) (sv_append room (codes " . ") buf)

abbrev pub max_levels : ℕ
max_levels = 101

-- `for (;;)` with `cap` doubled, on the rounds left.
unfoldable pub str_grow : ℕ → ℕ → Value → Option Bytes
str_grow zero cap v = none
str_grow (suc rounds) cap v =
    let text = str_value (cap - 1) max_levels v [] in
    let more = str_grow rounds (cap * 2) v in
    if ltb (length text) (cap - 1) then some text else more

-- `int cap` has the values 2^12 to 2^30; the next doubling overflows.
abbrev pub cap_rounds : ℕ
cap_rounds = 19

module _ {W : Type 0} (w : W) where
  abbrev pub str_result : Option Bytes → Popped W
  str_result none st = PrimResult.died
  str_result (some text) st = PrimResult.primed (Value.string text) st w

  abbrev pub str_of : Value → Popped W
  str_of (Value.symbol s) st = PrimResult.primed (Value.string s) st w
  str_of (Value.string s) st = PrimResult.primed (Value.string s) st w
  str_of (Value.number z) st = PrimResult.primed (Value.string (decimal_ℤ z)) st w
  str_of (Value.boolean b) st = PrimResult.primed (Value.string (bool_text b)) st w
  str_of v st = str_result (str_grow cap_rounds 4096 v) st

  unfoldable pub prim_str : Popped W
  prim_str (a ∷ st) = str_of a st
  prim_str [] = PrimResult.died
