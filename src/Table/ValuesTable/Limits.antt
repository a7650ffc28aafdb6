-- ===== src/Table/ValuesTable/Limits.antt =====
-- reference/shen-gc/zincvm.c: the values table when it is full and when it is empty.
use fx_ui.Base.{
  ℕ, zero, suc, ◌≤◌, ◌≡◌, ◌≢◌, ◌↔◌, refl, Option, none, some, arith, length-replicate,
  get_or-replicate, replicate, leb, Bool-cases, inl, inr,
}
use fx_ui.Base.Bytes.{Bytes}
use fx_ui.Value.{Value}
use fx_ui.Table.Entry.{Slot}
use fx_ui.Table.ValuesTable.{
  capacity, ValuesTable, find_slot, Stored, store_at, value_set, value_get, empty_table,
}
use fx_ui.Table.ValuesTable.Count.{occupied}
use fx_ui.Table.ValuesTable.Laws.{IsAbsent, IsValid, find_slot_total}

store_at-full :
    (name : Bytes) (v : Value) (t : ValuesTable) (o : Option ℕ)
    → store_at name v t o ≢ Stored.table_full
store_at-full name v t none h = cc
store_at-full name v t (some i) h = cc

-- Once 255 slots are used every store ends the program, also one to a name that is in the table.
pub value_set-full :
    (t : ValuesTable) (name : Bytes) (v : Value)
    → (value_set name v t ≡ Stored.table_full) ↔ (255 ≤ t.used)
unfolding value_set
value_set-full t name v = elim (Bool-cases (leb 255 t.used)) [
  | inl e ↦ (λ h. ground arith, λ h. rw e refl)
  | inr e ↦
      (λ h. absurd (store_at-full name v t (find_slot t.slots name) (rw e at h)), λ h. ground arith)
]

occupied-replicate : (n : ℕ) → occupied (replicate n none) ≡ 0
occupied-replicate zero = refl
occupied-replicate (suc n) = occupied-replicate n

IsAbsent-replicate : (n : ℕ) (m : Bytes) → IsAbsent m (replicate n none)
IsAbsent-replicate n m i = rw (get_or-replicate {A = Slot} n i none) refl

empty_table-IsValid : IsValid empty_table
unfolding empty_table
empty_table-IsValid = record {
  wide = length-replicate {A = Slot} capacity none;
  counted = occupied-replicate capacity;
  roomy = omega arith;
  placed = λ m s h n. IsAbsent-replicate capacity m;
}

-- The table that the program starts with is valid, and every name in it is the bare symbol.
pub empty_table_lem :
    IsValid empty_table × ((m : Bytes) → value_get m empty_table ≡ some (Value.symbol m))
unfolding empty_table value_get
empty_table_lem = (
  empty_table-IsValid,
  λ m.
      let (r, h) = find_slot_total empty_table empty_table-IsValid m in
      rw (h, value_get, get_or-replicate {A = Slot} capacity r none) refl,
)
