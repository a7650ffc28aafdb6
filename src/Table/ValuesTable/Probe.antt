-- ===== src/Table/ValuesTable/Probe.antt =====
-- reference/shen-gc/zincvm.c: the probing loop of the values table, under a store.
use fx_ui.Base.{
  ℕ, zero, suc, ◌+◌, ◌%◌, ◌<◌, ◌≡◌, ◌≢◌, inl, inr, refl, sym, ◌∙◌, true, none, some, List, arith,
  set, length, get_or-set_self, get_or-set_ne, Bool-cases,
}
use native.Mathlib.Decide.{ℕ_discrete}
use fx_ui.Base.Bytes.{Bytes, byte_eq_refl}
use fx_ui.Value.{Value}
use fx_ui.Table.Entry.{Slot, slot_at}
use fx_ui.Table.ValuesTable.{capacity, stops, probe}

-- The loop ends at a slot of the table where its test holds.
pub probe-stops :
    (f : ℕ) (ts : List Slot) (i : ℕ) (name : Bytes) {s : ℕ}
    → probe f ts i name ≡ some s
    → stops name (slot_at ts s) ≡ true
unfolding probe
probe-stops zero ts i name h = cc
probe-stops (suc f) ts i name h = elim (Bool-cases (stops name (slot_at ts i))) [
  | inl e ↦ ground arith
  | inr e ↦ probe-stops f ts ((i + 1) % capacity) name (rw e at h)
]

pub probe-lt :
    (f : ℕ) (ts : List Slot) (i : ℕ) (name : Bytes) {s : ℕ}
    → i < capacity
    → probe f ts i name ≡ some s
    → s < capacity
unfolding probe
probe-lt zero ts i name b h = cc
probe-lt (suc f) ts i name b h = elim (Bool-cases (stops name (slot_at ts i))) [
  | inl e ↦ ground arith
  | inr e ↦ probe-lt f ts ((i + 1) % capacity) name (omega arith) (rw e at h)
]

-- The loop depends on its tests alone.
pub probe_cong :
    (f : ℕ) (ts us : List Slot) (i : ℕ) (name : Bytes)
    → ((j : ℕ) → stops name (slot_at us j) ≡ stops name (slot_at ts j))
    → probe f us i name ≡ probe f ts i name
unfolding probe
probe_cong zero ts us i name h = refl
probe_cong (suc f) ts us i name h = rw (h i, probe_cong f ts us ((i + 1) % capacity) name h)

-- A store at the slot `s`, which held nothing or the same name.
module _ (ts : List Slot) (s : ℕ) (name : Bytes) (v : Value) (fits : s < length ts) where
  abbrev pub after : List Slot
  after = set ts s (some (name, v))

  pub slot_at-after_self : slot_at after s ≡ some (name, v)
  slot_at-after_self = get_or-set_self ts s _ none fits

  pub slot_at-after_ne : (j : ℕ) → j ≢ s → slot_at after j ≡ slot_at ts j
  slot_at-after_ne j h = get_or-set_ne ts s j _ none (λ e. h (cc))

  -- The name is found where it was stored.
  pub probe-after_self : (f i : ℕ) → probe f ts i name ≡ some s → probe f after i name ≡ some s
  unfolding probe
  probe-after_self zero i h = h
  probe-after_self (suc f) i h = elim (ℕ_discrete i s) [
    | yes e ↦ rw (e, slot_at-after_self, byte_eq_refl name)
    | no e ↦ elim (Bool-cases (stops name (slot_at ts i))) [
      | inl t ↦ absurd (e (ground arith))
      | inr t ↦ rw (slot_at-after_ne i e, t) (probe-after_self f ((i + 1) % capacity) (rw t at h))
    ]
  ]

  -- Another name, where the slot held this one: nothing changes.
  pub probe-after_update :
      (f i : ℕ) (m : Bytes) (w : Value)
      → slot_at ts s ≡ some (name, w)
      → probe f after i m ≡ probe f ts i m
  probe-after_update f i m w e = probe_cong f ts after i m (λ j. elim (ℕ_discrete j s) [
    | yes p ↦ rw (p, slot_at-after_self, e)
    | no p ↦ rw (slot_at-after_ne j p)
  ])

  -- Another name, where the slot was empty: a search that ended elsewhere ends there still.
  pub probe-after_insert :
      (f i : ℕ) (m : Bytes) {r : ℕ}
      → slot_at ts s ≡ none
      → r ≢ s
      → probe f ts i m ≡ some r
      → probe f after i m ≡ some r
  unfolding probe
  probe-after_insert zero i m e d h = h
  probe-after_insert (suc f) i m e d h = elim (ℕ_discrete i s) [
    | yes p ↦ absurd (d (ground arith))
    | no p ↦ elim (Bool-cases (stops m (slot_at ts i))) [
      | inl t ↦ rw (slot_at-after_ne i p, t) (rw t at h)
      | inr t ↦
          rw (slot_at-after_ne i p, t) (probe-after_insert f ((i + 1) % capacity) m e d (rw t at h))
    ]
  ]

  -- A search that now ends at an empty slot ended at one before.
  pub probe-before_insert :
      (f i : ℕ) (m : Bytes) {r : ℕ}
      → slot_at ts s ≡ none
      → probe f after i m ≡ some r
      → slot_at after r ≡ none
      → (q : ℕ) × (probe f ts i m ≡ some q) × (slot_at ts q ≡ none)
  unfolding probe
  probe-before_insert zero i m e h n = cc
  probe-before_insert (suc f) i m {r} e h n = elim (ℕ_discrete i s) [
    | yes p ↦ (s, rw (p, e) refl, e)
    | no p ↦ elim (Bool-cases (stops m (slot_at ts i))) [
      | inl t ↦
          let q : some i ≡ some r = rw (slot_at-after_ne i p, t) at h in
          (i, rw t refl, sym (slot_at-after_ne i p) ∙ (let q' : i ≡ r = ground arith in rw q' n))
      | inr t ↦
          rw t
            (probe-before_insert f ((i + 1) % capacity) m e (rw (slot_at-after_ne i p, t) at h) n)
    ]
  ]

-- The rounds needed to come from `i` to the slot `d` further on, if it is empty.
pub probe_total :
    (f : ℕ) (ts : List Slot) (d i : ℕ) (name : Bytes)
    → i < capacity
    → slot_at ts ((i + d) % capacity) ≡ none
    → d < f
    → (s : ℕ) × (probe f ts i name ≡ some s)
unfolding probe
probe_total zero ts d i name b e h = elim h [ ]
probe_total (suc f) ts zero i name b e h =
    let here : (i + 0) % capacity ≡ i = omega arith in
    let free : slot_at ts i ≡ none = rw here at e in (i, rw free refl)
probe_total (suc f) ts (suc d) i name b e h = elim (Bool-cases (stops name (slot_at ts i))) [
  | inl t ↦ (i, rw t refl)
  | inr t ↦
      let near : (i + suc d) % capacity ≡ ((i + 1) % capacity + d) % capacity = omega arith in
      rw t (probe_total f ts d ((i + 1) % capacity) name (omega arith) (rw near at e) (omega arith))
]
