-- ===== src/Prims/Streams.antt =====
-- reference/shen-gc/zincvm.c: the primitives `open`, `read-byte` and `close`, on files and on the
-- string streams that stand in for files that do not exist.
pub mod Laws
use fx_ui.Base.{
  ℕ, zero, suc, ◌+◌, ◌-◌, Bool, true, false, Option, none, some, List, [], ◌∷◌, ◌++◌, leb,
  if◌then◌else◌, length, get_elem?, set, take,
}
use fx_ui.Base.Bytes.{Bytes, codes, byte_eq}
use fx_ui.Base.Int.{pos, negsuc}
use fx_ui.Value.{Value}
use fx_ui.Machine.State.{PrimResult}
use fx_ui.Parse.Reader.{until_nul}
use fx_ui.Prims.Runtime.{
  StringStream, Runtime, Opened, file_at, no_entry, not_opened, Outside, Prim,
}

abbrev pub max_string_streams : ℕ
max_string_streams = 8

abbrev pub text_byte : StringStream → Option ℕ
text_byte s = elim s.text [ none ↦ none | some bs ↦ get_elem? bs s.cursor ]

module _ {E : Type 0} where
  -- A text in place of a file. The index counts from 1, and no entry is used again.
  unfoldable pub val_string_stream_in : Bytes → Prim E
  val_string_stream_in text w st =
      if leb max_string_streams (length w.strings)
      then PrimResult.primed (Value.error (codes "too many string streams")) st w
      else PrimResult.primed (Value.stream (suc (length w.strings)) true true) st (record w {
        strings = w.strings ++ record { text = some text; len = length text; cursor = 0 } ∷ [];
      })

  abbrev pub after_open_in : Bytes → Opened × E → Prim E
  after_open_in path (file_at f, e) w st =
      PrimResult.primed (Value.stream f true false) st (record w { outside = e })
  after_open_in path (no_entry, e) w st = val_string_stream_in path (record w { outside = e }) st
  after_open_in path (not_opened, e) w st =
      PrimResult.primed (Value.boolean false) st (record w { outside = e })

  abbrev pub after_open_out : Opened × E → Prim E
  after_open_out (file_at f, e) w st =
      PrimResult.primed (Value.stream f false false) st (record w { outside = e })
  after_open_out (no_entry, e) w st =
      PrimResult.primed (Value.boolean false) st (record w { outside = e })
  after_open_out (not_opened, e) w st =
      PrimResult.primed (Value.boolean false) st (record w { outside = e })

  -- Any other direction is an unknown primitive.
  unfoldable pub prim_open : Outside E → Value → Prim E
  prim_open out acc w (Value.string path ∷ Value.symbol dir ∷ st) =
      if byte_eq dir (codes "in")
      then after_open_in path (out.fopen (until_nul (take 255 path)) true w.outside) w st
      else if byte_eq dir (codes "out")
      then after_open_out (out.fopen (until_nul (take 255 path)) false w.outside) w st
      else PrimResult.refused acc w
  prim_open out acc w _ = PrimResult.died

  abbrev pub byte_read : ℕ → ℕ → StringStream → Option ℕ → Prim E
  byte_read i n s none w st = PrimResult.died
  byte_read i n s (some b) w st =
      PrimResult.primed (Value.number (pos b)) st
        (record w { strings = set w.strings i (record s { cursor = suc n }) })

  abbrev pub read_string : ℕ → Value → Option StringStream → Prim E
  read_string i acc none w st = PrimResult.refused acc w
  read_string i acc (some s) w st =
      if leb s.len s.cursor
      then PrimResult.primed (Value.number (negsuc 0)) st w
      else byte_read i s.cursor s (text_byte s) w st

  abbrev pub file_byte : Option ℕ × E → Prim E
  file_byte (none, e) w st =
      PrimResult.primed (Value.number (negsuc 0)) st (record w { outside = e })
  file_byte (some b, e) w st =
      PrimResult.primed (Value.number (pos b)) st (record w { outside = e })

  unfoldable pub prim_read_byte : Outside E → Value → Prim E
  prim_read_byte out acc w (Value.stream zero input true ∷ st) = PrimResult.refused acc w
  prim_read_byte out acc w (Value.stream (suc i) input true ∷ st) =
      read_string i acc (get_elem? w.strings i) w st
  prim_read_byte out acc w (Value.stream f input false ∷ st) =
      file_byte (out.fgetc f w.outside) w st
  prim_read_byte out acc w _ = PrimResult.died

  abbrev pub close_string : ℕ → Value → Option StringStream → Prim E
  close_string i acc none w st = PrimResult.refused acc w
  close_string i acc (some s) w st =
      PrimResult.primed Value.nil st
        (record w { strings = set w.strings i (record s { text = none }) })

  unfoldable pub prim_close : Outside E → Value → Prim E
  prim_close out acc w (Value.stream zero input true ∷ st) = PrimResult.refused acc w
  prim_close out acc w (Value.stream (suc i) input true ∷ st) =
      close_string i acc (get_elem? w.strings i) w st
  prim_close out acc w (Value.stream zero input false ∷ st) = PrimResult.primed Value.nil st w
  prim_close out acc w (Value.stream (suc f) input false ∷ st) =
      PrimResult.primed Value.nil st (record w { outside = out.fclose (suc f) w.outside })
  prim_close out acc w _ = PrimResult.died
