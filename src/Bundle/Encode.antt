-- ===== src/Bundle/Encode.antt =====
-- The text of a bundle, as the compiler writes it (elm-compiler/src/Zinc/Csexp.elm, `bundleEntry`):
-- a list of entries, each the atom of a name and the code of a `cur` with the body.
use fx_ui.Base.{◌≢◌, List, [], ◌∷◌, ◌++◌, All, if◌then◌else◌, Option, some}
use fx_ui.Base.Int.{pos}
use fx_ui.Base.Bytes.{Bytes, byte_eq}
use fx_ui.Value.{Value, Code, Opcode, no_operand, instr, stop, step}
use fx_ui.Parse.Encode.{encode_value, encode_code, Fits, CodeFits}
use fx_ui.Table.DefunTable.{DefunTable, set_bootstrap}
use fx_ui.Bundle.{entry_closure}

abbrev pub Entry : Type 0
Entry = Bytes × Code

-- The wrapper of a body.
abbrev pub cur_of : Code → Code
cur_of body = step (instr Opcode.cur no_operand body (pos 0)) stop

-- The code of an entry and its end, and after them `rest`.
abbrev pub encode_body : Bytes → Code → Bytes → Bytes
encode_body sep body rest =
    sep ++ b'(' ∷ encode_code sep (cur_of body) (sep ++ b')' ∷ (sep ++ b')' ∷ rest))

unfoldable pub encode_entries : Bytes → List Entry → Bytes
encode_entries sep [] = sep ++ b')' ∷ []
encode_entries sep ((name, body) ∷ es) =
    sep
    ++ b'('
      ∷ (sep ++ encode_value (Value.symbol name) (encode_body sep body (encode_entries sep es)))

unfoldable pub encode_bundle : Bytes → List Entry → Bytes
encode_bundle sep es = sep ++ b'(' ∷ encode_entries sep es

abbrev pub EntryFits : Entry → Type 0
EntryFits (name, body) = (Fits name × All (λ c. c ≢ 0) name) × CodeFits body

-- The value that the entries leave under the name `m`, where `o` stood before.
unfoldable pub latest : Bytes → List Entry → Option Value → Option Value
latest m [] o = o
latest m ((name, body) ∷ es) o =
    latest m es (if byte_eq name m then some (entry_closure body) else o)

-- The table with the entries set one after the other.
unfoldable pub set_entries : List Entry → DefunTable → DefunTable
set_entries [] t = t
set_entries ((name, body) ∷ es) t = set_entries es (set_bootstrap name (entry_closure body) t)
