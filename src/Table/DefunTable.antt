-- ===== src/Table/DefunTable.antt =====
-- reference/shen-gc/zincvm.c: the defun table, reached by `[global X]`: a list of bindings while
-- the bundle is loaded, then a perfect hash of `table_size` slots with an overflow tail.
--
-- The allocation of a longer list of bindings is taken to succeed: its `exit(1)` is left out.
pub mod Scan
pub mod Marks
pub mod Laws
use fx_ui.Base.{
  ℕ, zero, suc, ◌+◌, ◌-◌, ◌%◌, Bool, true, false, ◌||◌, Option, none, some, List, [], ◌∷◌,
  if◌then◌else◌, set, get_or, length,
}
use fx_ui.Base.Bytes.{Bytes, byte_eq}
use fx_ui.Value.{Value}
use fx_ui.Table.Hash.{hash_name_h0, hash_name_h1}
use fx_ui.Table.Entry.{Slot, slot_at, named}

-- `marks` lists the calls made of `gc_dirty_defuns_mark`, the latest first.
pub record DefunTable : Type 0 where
  pub runtime : Bool
  pub bootstrap : List (Bytes × Value)
  pub slots : List Slot
  pub table_size : ℕ
  pub buckets : ℕ
  pub displacement : List ℕ
  pub table_cap : ℕ
  pub table_used : ℕ
  pub marks : List ℕ

-- A store ends with the new table or, for want of an overflow slot, with `exit(1)`.
pub data Stored : Type 0 where
  stored : DefunTable → Stored
  overflow_full : Stored

unfoldable pub boot_find : Bytes → List (Bytes × Value) → Option Value
boot_find name [] = none
boot_find name ((k, v) ∷ ks) = if byte_eq k name then some v else boot_find name ks

-- A later store wins; a new name is appended.
unfoldable pub boot_set : Bytes → Value → List (Bytes × Value) → List (Bytes × Value)
boot_set name v [] = (name, v) ∷ []
boot_set name v ((k, w) ∷ ks) = if byte_eq k name then (k, v) ∷ ks else (k, w) ∷ boot_set name v ks

unfoldable pub perfect_slot : Bytes → DefunTable → ℕ
perfect_slot name t =
    hash_name_h1 name (get_or t.displacement (hash_name_h0 name % t.buckets) 0) % t.table_size

-- `for (i = first; i < first + n; i++)`: the first slot with the name, and the first empty one.
unfoldable pub find_named : ℕ → List Slot → ℕ → Bytes → Option ℕ
find_named zero ts i name = none
find_named (suc n) ts i name =
    let rest = find_named n ts (i + 1) name in if named name (slot_at ts i) then some i else rest

abbrev pub is_free : Slot → Bool
is_free none = true
is_free (some e) = false

unfoldable pub find_free : ℕ → List Slot → ℕ → Option ℕ
find_free zero ts i = none
find_free (suc n) ts i =
    let rest = find_free n ts (i + 1) in if is_free (slot_at ts i) then some i else rest

abbrev pub overflow_rounds : DefunTable → ℕ
overflow_rounds t = t.table_cap - t.table_size

-- `table[i].value = v`, with the dirty mark; a free slot gets the name as well.
abbrev pub write_slot : Bytes → Value → ℕ → DefunTable → DefunTable
write_slot name v i t = record t { slots = set t.slots i (some (name, v)); marks = i ∷ t.marks }

abbrev pub insert_overflow : Bytes → Value → DefunTable → Option ℕ → Stored
insert_overflow name v t none = Stored.overflow_full
insert_overflow name v t (some i) =
    Stored.stored (record (write_slot name v i t) { table_used = t.table_used + 1 })

abbrev pub set_overflow : Bytes → Value → DefunTable → Option ℕ → Stored
set_overflow name v t (some i) = Stored.stored (write_slot name v i t)
set_overflow name v t none =
    insert_overflow name v t (find_free (overflow_rounds t) t.slots t.table_size)

unfoldable pub set_runtime : Bytes → Value → DefunTable → Stored
set_runtime name v t =
    if named name (slot_at t.slots (perfect_slot name t))
    then Stored.stored (write_slot name v (perfect_slot name t) t)
    else set_overflow name v t (find_named (overflow_rounds t) t.slots t.table_size name)

abbrev pub used_after : Option Value → ℕ → ℕ → ℕ
used_after none used count = count
used_after (some v) used count = used

unfoldable pub set_bootstrap : Bytes → Value → DefunTable → DefunTable
set_bootstrap name v t =
    let ks = boot_set name v t.bootstrap in
    record t {
      bootstrap = ks;
      table_used = used_after (boot_find name t.bootstrap) t.table_used (length ks);
    }

unfoldable pub defun_set : Bytes → Value → DefunTable → Stored
defun_set name v t =
    if t.runtime then set_runtime name v t else Stored.stored (set_bootstrap name v t)

abbrev pub slot_value : Slot → Option Value
slot_value none = none
slot_value (some (k, v)) = some v

abbrev pub overflow_value : List Slot → Option ℕ → Option Value
overflow_value ts none = none
overflow_value ts (some i) = slot_value (slot_at ts i)

unfoldable pub find_runtime : Bytes → DefunTable → Option Value
find_runtime name t =
    if named name (slot_at t.slots (perfect_slot name t))
    then slot_value (slot_at t.slots (perfect_slot name t))
    else overflow_value t.slots (find_named (overflow_rounds t) t.slots t.table_size name)

-- The explicit entry, which `defun_get`, `defun_has` and `defun_is_defined` look for alike.
unfoldable pub defun_find : Bytes → DefunTable → Option Value
defun_find name t = if t.runtime then find_runtime name t else boot_find name t.bootstrap

abbrev pub is_found : Option Value → Bool
is_found none = false
is_found (some v) = true

unfoldable pub defun_has : Bytes → DefunTable → Bool
defun_has name t = is_found (defun_find name t)

-- `exec_primitive_valid`: the name stands in the list of the primitives (prims.def).
unfoldable pub exec_primitive_valid : List Bytes → Bytes → Bool
exec_primitive_valid [] name = false
exec_primitive_valid (p ∷ ps) name = byte_eq p name || exec_primitive_valid ps name

abbrev pub or_named : List Bytes → Bytes → Option Value → Value
or_named prims name (some v) = v
or_named prims name none =
    if exec_primitive_valid prims name then Value.prim name else Value.symbol name

unfoldable pub defun_get : List Bytes → Bytes → DefunTable → Value
defun_get prims name t = or_named prims name (defun_find name t)

unfoldable pub defun_is_defined : List Bytes → Bytes → DefunTable → Bool
defun_is_defined prims name t = is_found (defun_find name t) || exec_primitive_valid prims name
