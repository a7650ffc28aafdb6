-- ===== src/Prims/Runtime.antt =====
-- reference/shen-gc/zincvm.c: the globals that the primitives read and write, and the primitives of
-- `exec_primitive` on vectors, on the values table, on fresh names and on streams.
--
-- What the C library does with files and processes is the record `Outside`, over a state `E`.
pub mod Laws
pub mod Names
use fx_ui.Base.{
  ℕ, zero, suc, ◌+◌, ◌-◌, ◌^◌, Bool, true, false, ◌&&◌, Option, none, some, List, [], ◌∷◌, ◌++◌,
  ◌==◌, ltb, leb, if◌then◌else◌, length, get_elem?, set, take,
}
use fx_ui.Base.Bytes.{Bytes, codes, byte_eq}
use fx_ui.Base.Int.{ℤ, pos, negsuc}
use fx_ui.Value.{Value, Store, no_operand}
use fx_ui.Table.ValuesTable.{ValuesTable, value_set, value_get}
use fx_ui.Table.ValuesTable
use fx_ui.Table.DefunTable.{DefunTable}
use fx_ui.Machine.State.{PrimResult, to_int}
use fx_ui.Parse.Encode.{decimal}
use fx_ui.Parse.Reader.{until_nul}

-- An entry of `string_streams`: `text` is its `data`, `none` after `close` has freed it, and `cursor`
-- its `pos`.
pub record StringStream : Type 0 where
  pub text : Option Bytes
  pub len : ℕ
  pub cursor : ℕ

-- `gensyms` is `gensym_counter`, `newvars` is `newvar_counter`, `strings` the first
-- `n_string_streams` entries of `string_streams`. Arrays from `next_array` on are not allocated.
pub record Runtime (E : Type 0) : Type 0 where
  pub store : Store
  pub next_array : ℕ
  pub values : ValuesTable
  pub defuns : DefunTable
  pub gensyms : ℕ
  pub newvars : ℕ
  pub strings : List StringStream
  pub repl_mode : Bool
  pub outside : E

-- `fopen`: a file, ENOENT, or another error.
pub data Opened : Type 0 where
  file_at : ℕ → Opened
  no_entry : Opened
  not_opened : Opened

pub record Outside (E : Type 0) : Type 0 where
  pub fopen : Bytes → Bool → E → Opened × E
  pub fgetc : ℕ → E → Option ℕ × E
  pub fclose : ℕ → E → E
  pub other : Bytes → Value → List Value → Runtime E → PrimResult (Runtime E)

abbrev pub Prim : Type 0 → Type 0
Prim E = Runtime E → List Value → PrimResult (Runtime E)

abbrev pub zeroed : Store → ℕ → Store
zeroed store a b i = if b == a then no_operand else store b i

abbrev pub with_element : Store → ℕ → ℕ → Value → Store
with_element store a i v b j = if (b == a) && (j == i) then v else store b j

abbrev pub drop_top : List Value → List Value
drop_top [] = []
drop_top (v ∷ st) = st

abbrev pub gensym_name : ℕ → Bytes
gensym_name n = codes "shen.gensym_" ++ decimal n

abbrev pub newvar_name : ℕ → Bytes
newvar_name n = codes "V_" ++ decimal n

module _ {E : Type 0} where
  -- `val_vector`: the array is zeroed, so every element is the number 0. A vector of a negative
  -- length is left out.
  abbrev pub val_vector : ℤ → Prim E
  val_vector (pos zero) w st = PrimResult.primed (Value.vector 0 0) st w
  val_vector (pos (suc n)) w st =
      PrimResult.primed (Value.vector w.next_array (suc n)) st
        (record w { store = zeroed w.store w.next_array; next_array = w.next_array + 1 })
  val_vector (negsuc n) w st = PrimResult.died

  unfoldable pub prim_absvector : Prim E
  prim_absvector w (Value.number z ∷ st) = val_vector (to_int z) w st
  prim_absvector w _ = PrimResult.died

  -- `vec.vector.data[i] = val`; outside of the array it is undefined.
  abbrev pub write_element : ℕ → ℕ → ℤ → Value → Prim E
  write_element a n (pos i) v w st =
      if ltb i n
      then PrimResult.primed (Value.vector a n) st (record w { store = with_element w.store a i v })
      else PrimResult.died
  write_element a n (negsuc i) v w st = PrimResult.died

  unfoldable pub prim_address_to : Prim E
  prim_address_to w (Value.vector a n ∷ Value.number i ∷ v ∷ st) =
      write_element a n (to_int i) v w st
  prim_address_to w _ = PrimResult.died

  abbrev pub read_element : ℕ → ℕ → ℤ → Prim E
  read_element a n (pos i) w st =
      if ltb i n then PrimResult.primed (w.store a i) st w else PrimResult.died
  read_element a n (negsuc i) w st = PrimResult.died

  unfoldable pub prim_from_address : Prim E
  prim_from_address w (Value.vector a n ∷ Value.number i ∷ st) = read_element a n (to_int i) w st
  prim_from_address w _ = PrimResult.died

  abbrev pub after_set : Value → ValuesTable.Stored → Prim E
  after_set v (ValuesTable.Stored.stored t) w st = PrimResult.primed v st (record w { values = t })
  after_set v ValuesTable.Stored.table_full w st = PrimResult.died
  after_set v ValuesTable.Stored.spins w st = PrimResult.died

  unfoldable pub prim_set : Prim E
  prim_set w (Value.symbol s ∷ v ∷ st) = after_set v (value_set s v w.values) w st
  prim_set w _ = PrimResult.died

  abbrev pub after_get : Option Value → Prim E
  after_get none w st = PrimResult.died
  after_get (some v) w st = PrimResult.primed v st w

  unfoldable pub prim_value : Prim E
  prim_value w (Value.symbol s ∷ st) = after_get (value_get s w.values) w st
  prim_value w _ = PrimResult.died

  -- `if (stack->len > 0) va_pop(stack);`
  -- The counters are a `long` and an `int`.
  unfoldable pub prim_gensym : Prim E
  prim_gensym w st =
      if ltb (w.gensyms + 1) (2 ^ 63)
      then PrimResult.primed (Value.symbol (gensym_name w.gensyms)) (drop_top st)
          (record w { gensyms = w.gensyms + 1 })
      else PrimResult.died

  unfoldable pub prim_newvar : Prim E
  prim_newvar w st =
      if ltb (w.newvars + 1) (2 ^ 31)
      then PrimResult.primed (Value.symbol (newvar_name w.newvars)) (drop_top st)
          (record w { newvars = w.newvars + 1 })
      else PrimResult.died
