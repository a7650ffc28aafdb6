-- ===== src/Table/ValuesTable/Count.antt =====
-- reference/shen-gc/zincvm.c: `values_table_used` counts the filled slots, so one is empty.
use fx_ui.Base.{ℕ, zero, suc, ◌<◌, ◌≡◌, refl, none, some, List, [], ◌∷◌, arith, set, length}
use fx_ui.Base.Bytes.{Bytes}
use fx_ui.Value.{Value}
use fx_ui.Table.Entry.{Slot, slot_at}
use fx_ui.Table.ValuesTable.{count_new}

abbrev pub occupied : List Slot → ℕ
occupied [] = 0
occupied (none ∷ ts) = occupied ts
occupied (some e ∷ ts) = suc (occupied ts)

-- With fewer filled slots than slots, one is empty.
pub free_slot :
    (ts : List Slot) → occupied ts < length ts → (j : ℕ) × (j < length ts) × (slot_at ts j ≡ none)
free_slot [] h = elim h [ ]
free_slot (none ∷ ts) h = (0, omega arith, refl)
free_slot (some e ∷ ts) h = let (j, b, f) = free_slot ts (omega arith) in (suc j, omega arith, f)

count_new-suc : (o : Slot) (n : ℕ) → suc (count_new o n) ≡ count_new o (suc n)
count_new-suc none n = omega arith
count_new-suc (some e) n = refl

-- A store at an empty slot fills one more.
pub occupied-set :
    (ts : List Slot) (s : ℕ) (e : Bytes × Value)
    → s < length ts
    → occupied (set ts s (some e)) ≡ count_new (slot_at ts s) (occupied ts)
occupied-set [] s e h = elim h [ ]
occupied-set (none ∷ ts) zero e h = omega arith
occupied-set (some x ∷ ts) zero e h = refl
occupied-set (none ∷ ts) (suc s) e h = occupied-set ts s e (omega arith)
occupied-set (some x ∷ ts) (suc s) e h =
    rw (occupied-set ts s e (omega arith)) (count_new-suc (slot_at ts s) (occupied ts))
