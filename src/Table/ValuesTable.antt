-- ===== src/Table/ValuesTable.antt =====
-- reference/shen-gc/zincvm.c: the values table, reached by `(value S)` and `(set S V)`: 256 slots,
-- linear probing, no deletion.
pub mod Probe
pub mod Count
pub mod Limits
pub mod Laws
use fx_ui.Base.{
  ℕ, zero, suc, ◌+◌, ◌%◌, ◌-◌, Bool, true, false, Option, none, some, List, leb, if◌then◌else◌, set,
  get_or, replicate,
}
use fx_ui.Base.Bytes.{Bytes, byte_eq}
use fx_ui.Value.{Value}
use fx_ui.Table.Hash.{hash_name}
use fx_ui.Table.Entry.{Slot, slot_at}

abbrev pub capacity : ℕ
capacity = 256

pub record ValuesTable : Type 0 where
  pub slots : List Slot
  pub used : ℕ

-- The loop over the slots stops: at an empty one, or at the name.
abbrev pub stops : Bytes → Slot → Bool
stops name none = true
stops name (some (k, v)) = byte_eq k name

-- `while (table[idx].name != NULL) { if (strcmp …) …; idx = (idx + 1) % CAP; }`, with the rounds
-- left; `none`: the loop has gone on for that many rounds.
unfoldable pub probe : ℕ → List Slot → ℕ → Bytes → Option ℕ
probe zero ts i name = none
probe (suc f) ts i name =
    let rest = probe f ts ((i + 1) % capacity) name in
    if stops name (slot_at ts i) then some i else rest

-- Twice round the table is forever: nothing changes on the way.
unfoldable pub find_slot : List Slot → Bytes → Option ℕ
find_slot ts name = probe capacity ts (hash_name name capacity) name

-- How a store ends: with the new table, with `exit(1)`, or never.
pub data Stored : Type 0 where
  stored : ValuesTable → Stored
  table_full : Stored
  spins : Stored

-- A new name counts in `used`, a known one keeps its slot.
abbrev pub count_new : Slot → ℕ → ℕ
count_new none used = used + 1
count_new (some e) used = used

abbrev pub store_at : Bytes → Value → ValuesTable → Option ℕ → Stored
store_at name v t none = Stored.spins
store_at name v t (some i) =
    Stored.stored (record {
      slots = set t.slots i (some (name, v));
      used = count_new (slot_at t.slots i) t.used;
    })

unfoldable pub value_set : Bytes → Value → ValuesTable → Stored
value_set name v t =
    if leb (capacity - 1) t.used
    then Stored.table_full
    else store_at name v t (find_slot t.slots name)

abbrev pub read_slot : Bytes → Slot → Value
read_slot name none = Value.symbol name
read_slot name (some (k, v)) = v

-- A name with no entry is the bare symbol. `none`: the loop never ends.
unfoldable pub value_get : Bytes → ValuesTable → Option Value
value_get name t = elim (find_slot t.slots name) [
  | none ↦ none
  | some i ↦ some (read_slot name (slot_at t.slots i))
]

-- The table of zeroed entries that the program starts with.
unfoldable pub empty_table : ValuesTable
empty_table = record { slots = replicate capacity none; used = 0 }
