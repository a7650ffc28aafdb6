-- ===== src/Table/DefunTable/Laws.antt =====
-- reference/shen-gc/zincvm.c: the defun table is a map from names to values, in both modes, and a
-- store marks every slot that it writes for the collector.
use fx_ui.Base.{
  ℕ, ◌+◌, ◌≤◌, ◌<◌, ◌≡◌, ◌≢◌, ◌⊎◌, inl, inr, refl, sym, ◌∙◌, true, false, Option, none, some, arith,
  if◌then◌else◌, length, get_or-set_self, get_or-set_ne, Bool-cases,
}
use native.Mathlib.Decide.{ℕ_discrete}
use mathlib.Core.Path.{subst}
use fx_ui.Base.Bytes.{Bytes, byte_eq, byte_eq_refl, byte_eq→eq}
use fx_ui.Value.{Value}
use fx_ui.Table.Entry.{Slot, slot_at, named}
use fx_ui.Table.DefunTable.{
  DefunTable, Stored, perfect_slot, find_named, is_free, find_free, overflow_rounds, write_slot,
  insert_overflow, set_overflow, set_runtime, set_bootstrap, defun_set, overflow_value,
  find_runtime, defun_find,
}
use fx_ui.Table.DefunTable.Scan.{
  boot_find-boot_set, find_named_cong, find_named-named, find_free-is_free, find_named-set,
}

-- The perfect slots come first, the overflow tail follows, and both lie in the array.
pub record IsValid (t : DefunTable) : Type 0 where
  pub filled : 0 < t.table_size
  pub tail : t.table_size ≤ t.table_cap
  pub fits : t.table_cap ≤ length t.slots

abbrev pub Answers : Bytes → Value → DefunTable → DefunTable → Type 0
Answers name v t t' =
    (m : Bytes) → defun_find m t' ≡ (if byte_eq name m then some v else defun_find m t)

defun_find_runtime :
    (m : Bytes) (t : DefunTable) → t.runtime ≡ true → defun_find m t ≡ find_runtime m t
unfolding defun_find
defun_find_runtime m t r = rw r

stored_eq : {t u : DefunTable} → Stored.stored t ≡ Stored.stored u → t ≡ u
stored_eq e = cc

used_irrelevant :
    (name : Bytes) (v : Value) (t t' : DefunTable) (n : ℕ)
    → Answers name v t t'
    → Answers name v t (record t' { table_used = n })
unfolding defun_find find_runtime perfect_slot
used_irrelevant name v t t' n h = h

perfect_slot-lt :
    (name : Bytes) (t : DefunTable) → 0 < t.table_size → perfect_slot name t < t.table_size
unfolding perfect_slot
perfect_slot-lt name t h = omega arith

-- A slot with another name, or an empty one, does not hold `m` before or after.
named_other :
    (name m : Bytes) (v : Value) (o : Slot)
    → (named name o ≡ true) ⊎ (is_free o ≡ true)
    → byte_eq name m ≡ false
    → named m (some (name, v)) ≡ named m o
named_other name m v none h e = e
named_other name m v (some (k, w)) (inl h) e = rw (byte_eq→eq k name h)
named_other name m v (some (k, w)) (inr h) e = cc

-- A write at the slot `i`, which held this name or was empty.
module _ (t : DefunTable) (name : Bytes) (v : Value) (i : ℕ) (in_array : i < length t.slots)
    (own : (named name (slot_at t.slots i) ≡ true) ⊎ (is_free (slot_at t.slots i) ≡ true)) where
  abbrev pub written : DefunTable
  written = write_slot name v i t

  perfect_same : (m : Bytes) → perfect_slot m written ≡ perfect_slot m t
  unfolding perfect_slot
  perfect_same m = refl

  written_self : slot_at written.slots i ≡ some (name, v)
  written_self = get_or-set_self t.slots i (some (name, v)) none in_array

  written_ne : (j : ℕ) → j ≢ i → slot_at written.slots j ≡ slot_at t.slots j
  written_ne j h = get_or-set_ne t.slots i j (some (name, v)) none (λ e. h (sym e))

  module _ (m : Bytes) (other : byte_eq name m ≡ false) where
    named_same : (j : ℕ) → named m (slot_at written.slots j) ≡ named m (slot_at t.slots j)
    named_same j = elim (ℕ_discrete j i) [
      | yes p ↦ rw (p, written_self) (named_other name m v (slot_at t.slots i) own other)
      | no p ↦ rw (written_ne j p)
    ]

    slot_same :
        (j : ℕ) → named m (slot_at t.slots j) ≡ true → slot_at written.slots j ≡ slot_at t.slots j
    slot_same j h = elim (ℕ_discrete j i) [
      | no p ↦ written_ne j p
      | yes p ↦
          let same = named_other name m v (slot_at t.slots i) own other in absurd (cc (rw p at h))
    ]

    overflow_same :
        (o : Option ℕ)
        → find_named (overflow_rounds t) t.slots t.table_size m ≡ o
        → overflow_value written.slots o ≡ overflow_value t.slots o
    overflow_same none h = refl
    overflow_same (some j) h =
        let (e, lo, hi) = find_named-named (overflow_rounds t) t.slots t.table_size m h in
        rw (slot_same j e)

    find_other : find_runtime m written ≡ find_runtime m t
    unfolding find_runtime
    find_other = elim (Bool-cases (named m (slot_at t.slots (perfect_slot m t)))) [
      | inl e ↦
          rw (perfect_same m, named_same (perfect_slot m t), e, slot_same (perfect_slot m t) e)
      | inr e ↦
          let scan =
            find_named_cong (overflow_rounds t) t.slots written.slots t.table_size m named_same in
          rw (perfect_same m, named_same (perfect_slot m t), e, scan) (overflow_same _ refl)
    ]

  find_self :
      (perfect_slot name t ≡ i)
        ⊎ ((named name (slot_at t.slots (perfect_slot name t)) ≡ false)
            × (perfect_slot name t ≢ i)
            × (find_named (overflow_rounds t) written.slots t.table_size name ≡ some i))
      → find_runtime name written ≡ some v
  unfolding find_runtime
  find_self (inl p) = rw (perfect_same name, p, written_self, byte_eq_refl name)
  find_self (inr (a, b, c)) =
      rw (perfect_same name, written_ne (perfect_slot name t) b, a, c, overflow_value, written_self)

  answers :
      t.runtime ≡ true
      → (perfect_slot name t ≡ i)
        ⊎ ((named name (slot_at t.slots (perfect_slot name t)) ≡ false)
            × (perfect_slot name t ≢ i)
            × (find_named (overflow_rounds t) written.slots t.table_size name ≡ some i))
      → Answers name v t written
  answers r place m = elim (Bool-cases (byte_eq name m)) [
    | inl e ↦ rw (defun_find_runtime m written r, e, ← byte_eq→eq name m e) (find_self place)
    | inr e ↦ rw (defun_find_runtime m written r, defun_find_runtime m t r, e) (find_other m e)
  ]

module _ (t : DefunTable) (name : Bytes) (v : Value) (valid : IsValid t)
    (run : t.runtime ≡ true) where
  before_tail : (i : ℕ) → t.table_size ≤ i → perfect_slot name t ≢ i
  before_tail i h e = let b = perfect_slot-lt name t valid.filled in absurd (omega arith)

  -- The store went to the tail slot `i`.
  tail_lem :
      (i : ℕ)
      → named name (slot_at t.slots (perfect_slot name t)) ≡ false
      → (named name (slot_at t.slots i) ≡ true) ⊎ (is_free (slot_at t.slots i) ≡ true)
      → (find_named (overflow_rounds t) t.slots t.table_size name ≡ some i)
        ⊎ (find_named (overflow_rounds t) t.slots t.table_size name ≡ none)
      → t.table_size ≤ i
      → i < t.table_size + overflow_rounds t
      → Answers name v t (write_slot name v i t)
  tail_lem i miss own scan lo hi =
      let w : i < length t.slots = omega (arith, valid.tail, valid.fits) in
      answers t name v i w own run (
        inr (
          miss,
          before_tail i lo,
          find_named-set (overflow_rounds t) t.slots t.table_size i name v lo hi w scan,
        ))

  insert_lem :
      (o : Option ℕ) {t' : DefunTable}
      → named name (slot_at t.slots (perfect_slot name t)) ≡ false
      → find_named (overflow_rounds t) t.slots t.table_size name ≡ none
      → find_free (overflow_rounds t) t.slots t.table_size ≡ o
      → insert_overflow name v t o ≡ Stored.stored t'
      → Answers name v t t'
  insert_lem none miss absent h e = cc
  insert_lem (some i) miss absent h e =
      let (free, lo, hi) = find_free-is_free (overflow_rounds t) t.slots t.table_size h in
      subst (Answers name v t) (stored_eq e) (
        used_irrelevant name v t (write_slot name v i t) (t.table_used + 1)
          (tail_lem i miss (inr free) (inr absent) lo hi))

  overflow_lem :
      (o : Option ℕ) {t' : DefunTable}
      → named name (slot_at t.slots (perfect_slot name t)) ≡ false
      → find_named (overflow_rounds t) t.slots t.table_size name ≡ o
      → set_overflow name v t o ≡ Stored.stored t'
      → Answers name v t t'
  overflow_lem none miss h e = insert_lem _ miss h refl e
  overflow_lem (some i) miss h e =
      let (own, lo, hi) = find_named-named (overflow_rounds t) t.slots t.table_size name h in
      subst (Answers name v t) (stored_eq e) (tail_lem i miss (inl own) (inl h) lo hi)

  set_runtime_lem :
      {t' : DefunTable} → set_runtime name v t ≡ Stored.stored t' → Answers name v t t'
  unfolding set_runtime
  set_runtime_lem e = elim (Bool-cases (named name (slot_at t.slots (perfect_slot name t)))) [
    | inr miss ↦ overflow_lem _ miss refl (rw miss at e)
    | inl own ↦
        let b = perfect_slot-lt name t valid.filled in
        let w : perfect_slot name t < length t.slots = omega (arith, valid.tail, valid.fits) in
        subst (Answers name v t) (stored_eq (rw own at e))
          (answers t name v (perfect_slot name t) w (inl own) run (inl refl))
  ]

set_bootstrap_lem :
    (t : DefunTable) (name : Bytes) (v : Value)
    → t.runtime ≡ false
    → Answers name v t (set_bootstrap name v t)
unfolding defun_find set_bootstrap
set_bootstrap_lem t name v r m = rw (r, boot_find-boot_set name m v t.bootstrap)

defun_set_runtime :
    (t : DefunTable) (name : Bytes) (v : Value)
    → t.runtime ≡ true
    → defun_set name v t ≡ set_runtime name v t
unfolding defun_set
defun_set_runtime t name v r = simp r

defun_set_bootstrap :
    (t : DefunTable) (name : Bytes) (v : Value)
    → t.runtime ≡ false
    → defun_set name v t ≡ Stored.stored (set_bootstrap name v t)
unfolding defun_set
defun_set_bootstrap t name v r = simp r

-- In both modes a store that does not end the program is read back under its name, and changes what
-- is found under no other name. After the freeze this is for a table whose slots lie in the array.
pub defun_set_lem :
    (t : DefunTable) (name : Bytes) (v : Value) {t' : DefunTable}
    → (t.runtime ≡ true → IsValid t)
    → defun_set name v t ≡ Stored.stored t'
    → (m : Bytes) → defun_find m t' ≡ (if byte_eq name m then some v else defun_find m t)
defun_set_lem t name v {t'} valid e = elim (Bool-cases t.runtime) [
  | inl r ↦ set_runtime_lem t name v (valid r) r (sym (defun_set_runtime t name v r) ∙ e)
  | inr r ↦
      subst (Answers name v t) (stored_eq (sym (defun_set_bootstrap t name v r) ∙ e))
        (set_bootstrap_lem t name v r)
]
