-- ===== src/Table/ValuesTable/Laws.antt =====
-- reference/shen-gc/zincvm.c: the values table is a map from names to values.
use fx_ui.Base.{
  ℕ, ◌+◌, ◌-◌, ◌%◌, ◌<◌, ◌≡◌, ◌≢◌, refl, sym, ◌∙◌, true, false, none, some, List, arith,
  if◌then◌else◌, set, length, length-set, Bool-cases, Option-cases, inl, inr,
}
use native.Mathlib.Decide.{ℕ_discrete}
use fx_ui.Base.Bytes.{Bytes, byte_eq, byte_eq→eq}
use fx_ui.Value.{Value}
use fx_ui.Table.Hash.{hash_name, hash_name-lt}
use fx_ui.Table.Entry.{Slot, slot_at, named}
use fx_ui.Table.ValuesTable.{
  capacity, ValuesTable, stops, find_slot, Stored, count_new, store_at, value_set, read_slot,
  value_get,
}
use fx_ui.Table.ValuesTable.Probe.{
  probe-stops, probe-lt, slot_at-after_self, slot_at-after_ne, probe-after_self, probe-after_update,
  probe-after_insert, probe-before_insert, probe_total,
}
use fx_ui.Table.ValuesTable.Count.{occupied, free_slot, occupied-set}

some_eq : {a b : ℕ} → some a ≡ some b → a ≡ b
some_eq h = ground arith

-- No slot holds the name.
abbrev pub IsAbsent : Bytes → List Slot → Type 0
IsAbsent name ts = (i : ℕ) → named name (slot_at ts i) ≡ false

absent_stop : (m : Bytes) (o : Slot) → named m o ≡ false → stops m o ≡ true → o ≡ none
absent_stop m none p q = refl
absent_stop m (some (k, v)) p q = cc

-- The table is as large as its constant says, one slot is free, and a name whose search ends at an
-- empty slot is nowhere in the table.
pub record IsValid (t : ValuesTable) : Type 0 where
  pub wide : length t.slots ≡ capacity
  pub counted : occupied t.slots ≡ t.used
  pub roomy : t.used < capacity
  pub placed :
      (name : Bytes) (s : ℕ)
      → find_slot t.slots name ≡ some s
      → slot_at t.slots s ≡ none
      → IsAbsent name t.slots

module _ (t : ValuesTable) (valid : IsValid t) (name : Bytes) where
  -- The search ends.
  pub find_slot_total : (s : ℕ) × (find_slot t.slots name ≡ some s)
  unfolding find_slot
  find_slot_total =
      let w = valid.wide in
      let c = valid.counted in
      let (j, b, free) = free_slot t.slots (omega (arith, valid.roomy)) in
      let i = hash_name name capacity in
      let i-lt = hash_name-lt name capacity (omega arith) in
      let d : ℕ = (j + capacity - i) % capacity in
      let there : (i + d) % capacity ≡ j = omega arith in
      probe_total capacity t.slots d i name i-lt (rw there free) (omega arith)

  pub find_slot-lt : {s : ℕ} → find_slot t.slots name ≡ some s → s < capacity
  unfolding find_slot
  find_slot-lt h =
      probe-lt capacity t.slots (hash_name name capacity) name
        (hash_name-lt name capacity (omega arith)) h

-- In a valid table looking a name up ends.
pub value_get_total :
    (t : ValuesTable) (name : Bytes) → IsValid t → (v : Value) × (value_get name t ≡ some v)
unfolding value_get
value_get_total t name valid =
    let (s, e) = find_slot_total t valid name in
    (read_slot name (slot_at t.slots s), rw (e, value_get) refl)

-- One store into a valid table with room, at the slot `s` where its search ended.
module _ (t : ValuesTable) (valid : IsValid t) (room : t.used < capacity - 1) (name : Bytes)
    (v : Value) (s : ℕ) (found : find_slot t.slots name ≡ some s) where
  abbrev pub result : ValuesTable
  result = record {
    slots = set t.slots s (some (name, v));
    used = count_new (slot_at t.slots s) t.used;
  }

  fits : s < length t.slots
  fits = let w = valid.wide in omega (arith, find_slot-lt t valid name found)

  value_set-result : value_set name v t ≡ Stored.stored result
  unfolding value_set
  value_set-result = rw (found, store_at) (ground arith)

  -- What the slot held, it held under this name.
  held : (k : Bytes) (w : Value) → slot_at t.slots s ≡ some (k, w) → k ≡ name
  unfolding find_slot
  held k w e =
      let h = probe-stops capacity t.slots (hash_name name capacity) name found in
      byte_eq→eq k name (rw e at h)

  -- The stored name is read back.
  get_self : value_get name result ≡ some v
  unfolding value_get find_slot
  get_self =
      rw
        (
          probe-after_self t.slots s name v fits capacity (hash_name name capacity) found,
          value_get,
          slot_at-after_self t.slots s name v fits,
        )
        refl

  result-wide : length result.slots ≡ capacity
  result-wide = rw (length-set t.slots s (some (name, v))) valid.wide

  result-counted : occupied result.slots ≡ result.used
  result-counted = rw (occupied-set t.slots s (name, v) fits, valid.counted) refl

  result-roomy : result.used < capacity
  result-roomy = ground arith

  -- A store of this name leaves another name where it was, or absent.
  module _ (m : Bytes) (other : byte_eq name m ≡ false) where
    not-found_here : {r : ℕ} → find_slot result.slots m ≡ some r → r ≢ s
    unfolding find_slot
    not-found_here h e =
        let st = probe-stops capacity result.slots (hash_name m capacity) m h in
        let st' = rw (e, slot_at-after_self t.slots s name v fits) at st in ground arith

    IsAbsent-after : IsAbsent m t.slots → IsAbsent m result.slots
    IsAbsent-after a i = elim (ℕ_discrete i s) [
      | yes p ↦ rw (p, slot_at-after_self t.slots s name v fits) other
      | no p ↦ rw (slot_at-after_ne t.slots s name v fits i p) (a i)
    ]

    placed_other :
        (r : ℕ)
        → find_slot result.slots m ≡ some r
        → slot_at result.slots r ≡ none
        → IsAbsent m result.slots
    unfolding find_slot
    placed_other r h n = IsAbsent-after (elim (Option-cases (slot_at t.slots s)) [
      | inl free ↦
          let (q, e, f) =
            probe-before_insert t.slots s name v fits capacity (hash_name m capacity) m free h n in
          valid.placed m q e f
      | inr ((k, w), e) ↦
          let same =
            probe-after_update t.slots s name v fits capacity (hash_name m capacity) m w
              (let q = held k w e in rw q at e) in
          let r-ne = not-found_here h in
          valid.placed m r (sym same ∙ h) (sym (slot_at-after_ne t.slots s name v fits r r-ne) ∙ n)
    ])

  result-placed :
      (m : Bytes) (r : ℕ)
      → find_slot result.slots m ≡ some r
      → slot_at result.slots r ≡ none
      → IsAbsent m result.slots
  unfolding find_slot
  result-placed m r h n = elim (Bool-cases (byte_eq name m)) [
    | inr e ↦ placed_other m e r h n
    | inl e ↦
        let same = byte_eq→eq name m e in
        let here =
          probe-after_self t.slots s name v fits capacity (hash_name name capacity) found in
        let r-eq : s ≡ r = some_eq (sym here ∙ (rw (← same) at h)) in
        let full = slot_at-after_self t.slots s name v fits in absurd (cc (rw r-eq at full))
  ]

  result-IsValid : IsValid result
  result-IsValid = record {
    wide = result-wide;
    counted = result-counted;
    roomy = result-roomy;
    placed = result-placed;
  }

  get_other_update :
      (m : Bytes)
      → byte_eq name m ≡ false
      → (w : Value) → slot_at t.slots s ≡ some (name, w)
      → value_get m result ≡ value_get m t
  unfolding value_get find_slot
  get_other_update m other w e =
      let (r, h) = find_slot_total t valid m in
      let same = probe-after_update t.slots s name v fits capacity (hash_name m capacity) m w e in
      let r-ne = not-found_here m other (same ∙ h) in
      rw (same ∙ h, h, value_get, slot_at-after_ne t.slots s name v fits r r-ne) refl

  get_other_insert :
      (m : Bytes)
      → byte_eq name m ≡ false
      → slot_at t.slots s ≡ none
      → value_get m result ≡ value_get m t
  unfolding value_get find_slot
  get_other_insert m other e =
      let (r, h) = find_slot_total t valid m in
      elim (ℕ_discrete r s) [
        | no p ↦
            let kept =
              probe-after_insert t.slots s name v fits capacity (hash_name m capacity) m e p h in
            rw (kept, h, value_get, slot_at-after_ne t.slots s name v fits r p) refl
        | yes p ↦
            let absent = valid.placed m r h (rw p e) in
            let (q, g) = find_slot_total result result-IsValid m in
            let same = slot_at-after_ne t.slots s name v fits q (not-found_here m other g) in
            let st = probe-stops capacity result.slots (hash_name m capacity) m g in
            let free = absent_stop m (slot_at t.slots q) (absent q) (rw same at st) in
            rw (h, g, value_get, p, e, same, free) refl
      ]

  get_other : (m : Bytes) → byte_eq name m ≡ false → value_get m result ≡ value_get m t
  get_other m other = elim (Option-cases (slot_at t.slots s)) [
    | inr ((k, w), e) ↦ get_other_update m other w (let q = held k w e in rw q at e)
    | inl free ↦ get_other_insert m other free
  ]

-- A store into a valid table with a spare slot succeeds, leaves a valid table, and changes what is
-- read under this name alone.
pub value_set_lem :
    (t : ValuesTable) (name : Bytes) (v : Value)
    → IsValid t
    → t.used < 255
    → (t' : ValuesTable) × (value_set name v t ≡ Stored.stored t')
      × IsValid t'
      × ((m : Bytes) → value_get m t' ≡ (if byte_eq name m then some v else value_get m t))
value_set_lem t name v valid room =
    let (s, found) = find_slot_total t valid name in
    (
      result t valid room name v s found,
      value_set-result t valid room name v s found,
      result-IsValid t valid room name v s found,
      λ m. elim (Bool-cases (byte_eq name m)) [
        | inl e ↦ rw (e, ← byte_eq→eq name m e) (get_self t valid room name v s found)
        | inr e ↦ rw e (get_other t valid room name v s found m e)
      ],
    )
