-- ===== src/Tests/Tables.antt =====
-- Runs of the two global tables.
use fx_ui.Base.{◌≤◌, ◌≡◌, ◌↔◌, refl, true, none, some, [], ◌∷◌, arith, if◌then◌else◌}
use fx_ui.Base.Bytes.{Bytes, codes, byte_eq}
use fx_ui.Value.{Value}
use fx_ui.Table.ValuesTable.{ValuesTable, Stored, value_set, value_get, empty_table}
use fx_ui.Table.ValuesTable.Laws.{IsValid, value_set_lem}
use fx_ui.Table.ValuesTable.Limits.{empty_table_lem}
use fx_ui.Table.DefunTable
use fx_ui.Table.DefunTable.{DefunTable, defun_set, defun_find, write_slot}
use fx_ui.Table.DefunTable.Laws.{defun_set_lem}
use fx_ui.Table.DefunTable.Marks.{Touched, defun_set-Touched}

abbrev home : Bytes
home = codes "*home*"

abbrev root_dir : Value
root_dir = Value.string (codes "/")

value_set_lem_example :
    (t : ValuesTable) × (value_set home root_dir empty_table ≡ Stored.stored t)
    × IsValid t
    × ((m : Bytes)
        → value_get m t ≡ (if byte_eq home m then some root_dir else value_get m empty_table))
unfolding empty_table
value_set_lem_example = value_set_lem empty_table home root_dir empty_table_lem.0 (omega arith)

abbrev full_table : ValuesTable
full_table = record { slots = (some (home, root_dir)) ∷ []; used = 255 }

-- One perfect slot and one overflow slot, both free.
abbrev two_slots : DefunTable
two_slots = record {
  runtime = true;
  bootstrap = [];
  slots = none ∷ none ∷ [];
  table_size = 1;
  buckets = 1;
  displacement = 0 ∷ [];
  table_cap = 2;
  table_used = 0;
  marks = [];
}

abbrev after_store : DefunTable
after_store = record (write_slot home root_dir 1 two_slots) { table_used = 1 }

defun_set_lem_example : defun_find home after_store ≡ some root_dir
unfolding defun_set DefunTable.set_runtime DefunTable.perfect_slot fx_ui.Table.Hash.hash_name_h1
    fx_ui.Table.Hash.fnv fx_ui.Table.Hash.hash_name_h0 DefunTable.find_named DefunTable.find_free
    fx_ui.Base.Bytes.byte_eq
defun_set_lem_example =
    defun_set_lem two_slots home root_dir {t' = after_store}
      (λ _. record { filled = omega arith; tail = omega arith; fits = omega arith }) refl home

defun_set-Touched_example : Touched two_slots after_store
unfolding defun_set DefunTable.set_runtime DefunTable.perfect_slot fx_ui.Table.Hash.hash_name_h1
    fx_ui.Table.Hash.fnv fx_ui.Table.Hash.hash_name_h0 DefunTable.find_named DefunTable.find_free
defun_set-Touched_example = defun_set-Touched home root_dir two_slots after_store refl refl
