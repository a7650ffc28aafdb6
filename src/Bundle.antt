-- ===== src/Bundle.antt =====
-- reference/shen-gc/zincvm.c: `parse_bundle`, which reads a bundle of named closures and stores each
-- in the defun table.
--
-- `Encode` is the written form and `RoundTrip` the proof that it is loaded, `Total` the fuel.
pub mod Encode
pub mod Total
pub mod RoundTrip
pub mod Boot
pub mod Fills
pub mod Start
use fx_ui.Base.{ℕ, zero, suc, ◌+◌, Option, none, some, [], ◌∷◌, ◌==◌, if◌then◌else◌, length}
use fx_ui.Base.Bytes.{Bytes}
use fx_ui.Value.{Value, Values, Code, Opcode, instr, stop, step}
use fx_ui.Parse.Reader.{Parsed, and_then, skip_ws, parse_csexp_atom}
use fx_ui.Parse.Body.{parse_csexp_list}
use fx_ui.Parse.Jumps.{resolve_jumps}
use fx_ui.Table.DefunTable.{DefunTable, Stored, defun_set}

-- The count that is returned and the table that is left; `overflow_full` is the `exit(1)` of
-- `defun_set`, `faulted` undefined behaviour in the parser, `starved` a model run out of fuel.
pub data Loaded : Type 0 where
  loaded : ℕ → DefunTable → Loaded
  overflow_full : Loaded
  faulted : Loaded
  starved : Loaded

-- The body in the outer `cur`; `none` where the code is empty or starts otherwise. A body has
-- memory of its own even where it is empty, so `closure_code` is no null pointer after a `cur`.
abbrev pub outer_cur : Bytes → Code → Option (Bytes × Code)
outer_cur name (step (instr Opcode.cur v body t) rest) = some (name, body)
outer_cur name code = none

-- The name, which is a symbol, and the code after it; `none` where the loop returns `count`.
abbrev pub after_name : Value → Bytes → Parsed (Option (Bytes × Code))
after_name (Value.symbol name) bs =
    and_then (parse_csexp_list (length bs + 1) bs)
      λ code rest. Parsed.parsed (outer_cur name code) rest
after_name v bs = Parsed.parsed none bs

-- The entry after its `(`, up to its `)`.
unfoldable pub parse_entry : Bytes → Parsed (Option (Bytes × Code))
parse_entry bs = and_then (parse_csexp_atom bs) after_name

abbrev pub entry_closure : Code → Value
entry_closure body = Value.lambda (resolve_jumps body) Values.empty

-- `count` is `n`; `more` is the loop on a shorter text.
abbrev pub close_entry : (ℕ → DefunTable → Bytes → Loaded) → ℕ → DefunTable → Bytes → Loaded
close_entry more n t [] = Loaded.loaded n t
close_entry more n t (c ∷ cs) = if c == b')' then more (n + 1) t cs else Loaded.loaded n t

abbrev pub after_defun : (ℕ → DefunTable → Bytes → Loaded) → ℕ → Stored → Bytes → Loaded
after_defun more n Stored.overflow_full rest = Loaded.overflow_full
after_defun more n (Stored.stored t) rest = close_entry more n t (skip_ws rest)

-- A parse error jumps to the handler, which returns 0, with the entries before it left stored.
abbrev pub load_entry :
    (ℕ → DefunTable → Bytes → Loaded) → ℕ → DefunTable → Parsed (Option (Bytes × Code)) → Loaded
load_entry more n t (Parsed.parsed (some (name, body)) rest) =
    after_defun more n (defun_set name (entry_closure body) t) rest
load_entry more n t (Parsed.parsed none rest) = Loaded.loaded n t
load_entry more n t Parsed.failed = Loaded.loaded 0 t
load_entry more n t Parsed.faulted = Loaded.faulted
load_entry more n t Parsed.starved = Loaded.starved

abbrev pub next_entry : (ℕ → DefunTable → Bytes → Loaded) → ℕ → DefunTable → Bytes → Loaded
next_entry more n t [] = Loaded.loaded n t
next_entry more n t (c ∷ cs) =
    if c == b')'
    then Loaded.loaded n t
    else if c == b'('
    then load_entry more n t (parse_entry cs)
    else Loaded.loaded n t

-- The loop, with a unit of fuel for each entry.
unfoldable pub load_entries : ℕ → ℕ → DefunTable → Bytes → Loaded
load_entries zero n t bs = Loaded.starved
load_entries (suc f) n t bs = next_entry (load_entries f) n t (skip_ws bs)

abbrev pub open_bundle : DefunTable → Bytes → Loaded
open_bundle t [] = Loaded.loaded 0 t
open_bundle t (c ∷ cs) =
    if c == b'(' then load_entries (length cs + 1) 0 t cs else Loaded.loaded 0 t

unfoldable pub parse_bundle : Bytes → DefunTable → Loaded
parse_bundle bs t = open_bundle t (skip_ws bs)
