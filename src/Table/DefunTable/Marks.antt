-- ===== src/Table/DefunTable/Marks.antt =====
-- reference/shen-gc/zincvm.c: the dirty marks of `defun_set`, which the nursery scavenge relies on.
use fx_ui.Base.{ℕ, ◌≡◌, ◌≢◌, refl, sym, ◌∙◌, true, Option, none, some, ◌∷◌, get_or-set_ne, if-cases}
use fx_ui.Base.Bytes.{Bytes}
use fx_ui.Value.{Value}
use fx_ui.Table.Entry.{slot_at, named}
use fx_ui.Table.DefunTable.{
  DefunTable, Stored, stored, overflow_full, perfect_slot, find_named, find_free, overflow_rounds,
  write_slot, insert_overflow, set_overflow, set_runtime, set_bootstrap, defun_set,
}

-- One slot is marked, and no other slot differs.
abbrev pub Touched : DefunTable → DefunTable → Type 0
Touched t t' =
    (i : ℕ) × (t'.marks ≡ i ∷ t.marks) × ((j : ℕ) → i ≢ j → slot_at t'.slots j ≡ slot_at t.slots j)

abbrev Touches : DefunTable → Stored → Type 0
Touches t (stored t') = Touched t t'
Touches t overflow_full = Unit

module _ (name : Bytes) (v : Value) (t : DefunTable) where
  write_slot-Touched : (i : ℕ) → Touched t (write_slot name v i t)
  write_slot-Touched i = (i, refl, λ j n. get_or-set_ne t.slots i j (some (name, v)) none n)

  insert_overflow-Touches : (o : Option ℕ) → Touches t (insert_overflow name v t o)
  insert_overflow-Touches none = tt
  insert_overflow-Touches (some i) = write_slot-Touched i

  set_overflow-Touches : (o : Option ℕ) → Touches t (set_overflow name v t o)
  set_overflow-Touches (some i) = write_slot-Touched i
  set_overflow-Touches none =
      insert_overflow-Touches (find_free (overflow_rounds t) t.slots t.table_size)

  set_runtime-Touches : Touches t (set_runtime name v t)
  unfolding set_runtime
  set_runtime-Touches =
      if-cases (Touches t) (named name (slot_at t.slots (perfect_slot name t))) _ _
        (λ _. write_slot-Touched (perfect_slot name t))
        (λ _. set_overflow-Touches (find_named (overflow_rounds t) t.slots t.table_size name))

at_stored : (t t' : DefunTable) (s : Stored) → s ≡ stored t' → Touches t s → Touched t t'
at_stored t t' s e h = rw e at h

runtime_eq :
    (name : Bytes) (v : Value) (t : DefunTable)
    → t.runtime ≡ true
    → defun_set name v t ≡ set_runtime name v t
unfolding defun_set
runtime_eq name v t r =
    if-cases (λ s. s ≡ set_runtime name v t) t.runtime (set_runtime name v t)
      (stored (set_bootstrap name v t)) (λ _. refl) (λ f. cc)

-- After the freeze every store that does not end the program marks one slot dirty, and changes no
-- slot but that one.
pub defun_set-Touched :
    (name : Bytes) (v : Value) (t t' : DefunTable)
    → t.runtime ≡ true
    → defun_set name v t ≡ stored t'
    → Touched t t'
defun_set-Touched name v t t' r e =
    at_stored t t' (set_runtime name v t) (sym (runtime_eq name v t r) ∙ e)
      (set_runtime-Touches name v t)
