-- ===== src/Table/Entry.antt =====
-- reference/shen-gc/zincvm.h: `TableEntry`, the slots of both global tables.
use fx_ui.Base.{ℕ, Bool, false, Option, none, some, List, get_or}
use fx_ui.Base.Bytes.{Bytes, byte_eq}
use fx_ui.Value.{Value}

-- `none` is an entry with `name == NULL`.
abbrev pub Slot : Type 0
Slot = Option (Bytes × Value)

abbrev pub slot_at : List Slot → ℕ → Slot
slot_at ts i = get_or ts i none

-- `table[i].name != NULL && strcmp(table[i].name, name) == 0`
abbrev pub named : Bytes → Slot → Bool
named name none = false
named name (some (k, v)) = byte_eq k name
