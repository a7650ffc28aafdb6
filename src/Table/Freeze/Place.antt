-- ===== src/Table/Freeze/Place.antt =====
-- reference/shen-gc/zincvm.c: the keys of one bucket are placed in slots that were not used.
use fx_ui.Base.{
  ℕ, zero, suc, ◌+◌, ◌≤◌, ◌<◌, ◌≡◌, ◌≢◌, inl, inr, refl, ◌∙◌, Bool, true, false, none, some, List,
  [], ◌∷◌, arith, ==_iff, set, get_or, length, length-set, get_or-set_self, get_or-set_ne, All,
  Bool-cases,
}
use native.Mathlib.Decide.{ℕ_discrete}
use fx_ui.Base.Bytes.{Bytes, byte_eq, byte_eq→eq}
use fx_ui.Value.{Value}
use fx_ui.Table.Entry.{Slot, slot_at}
use fx_ui.Table.DefunTable.{boot_find}
use fx_ui.Table.Freeze.{
  Key, slot_of, clash, is_taken, all_distinct, find_displacement, Layout, place_keys,
  defun_overflow_cap,
}

module _ (n d : ℕ) where
  -- Fewer taken slots leave more room.
  all_distinct_mono :
      (used used' : List Bool) (before before' ks : List Key)
      → ((j : ℕ) → is_taken n d used' before' j ≡ true → is_taken n d used before j ≡ true)
      → all_distinct n d used before ks ≡ true
      → all_distinct n d used' before' ks ≡ true
  unfolding all_distinct clash
  all_distinct_mono used used' before before' [] h e = refl
  all_distinct_mono used used' before before' ((k, v) ∷ ks) h e =
      let at_slot = h (slot_of n d k) in
      elim (Bool-cases (is_taken n d used before (slot_of n d k))) [
        | inl f ↦ cc (rw f at e)
        | inr f ↦ elim (Bool-cases (is_taken n d used' before' (slot_of n d k))) [
          | inl g ↦ cc (at_slot g)
          | inr g ↦ rw g (
              all_distinct_mono used used' ((k, v) ∷ before) ((k, v) ∷ before') ks
                (λ j q. ground (arith, h j)) (rw f at e))
        ]
      ]

  -- What is taken after the first key has its slot.
  taken-set :
      (used : List Bool) (k : Bytes) (v : Value) (j : ℕ)
      → is_taken n d (set used (slot_of n d k) true) [] j ≡ true
      → is_taken n d used ((k, v) ∷ []) j ≡ true
  unfolding clash
  taken-set used k v j h = elim (ℕ_discrete (slot_of n d k) j) [
    | yes p ↦ ground (arith, (==_iff (slot_of n d k) j).1 p)
    | no p ↦ let same = get_or-set_ne used (slot_of n d k) j true false p in ground arith
  ]

  first_free :
      (used : List Bool) (k : Bytes) (v : Value) (ks : List Key)
      → all_distinct n d used [] ((k, v) ∷ ks) ≡ true
      → (get_or used (slot_of n d k) false ≡ false)
        × (all_distinct n d (set used (slot_of n d k) true) [] ks ≡ true)
  unfolding all_distinct clash
  first_free used k v ks e = elim (Bool-cases (is_taken n d used [] (slot_of n d k))) [
    | inl f ↦ absurd (cc (rw f at e))
    | inr f ↦ (
      ground arith,
      all_distinct_mono used (set used (slot_of n d k) true) ((k, v) ∷ []) [] ks
          (taken-set used k v) (rw f at e),
    )
  ]

abbrev written_at : ℕ → ℕ → Bytes → Value → Layout → Layout
written_at n d k v l = record l {
  slots = set l.slots (slot_of n d k) (some (k, v));
  used = set l.used (slot_of n d k) true;
}

pub find_displacement-distinct :
    (n rounds d : ℕ) (used : List Bool) (ks : List Key) {r : ℕ}
    → find_displacement rounds n d used ks ≡ some r
    → all_distinct n r used [] ks ≡ true
unfolding find_displacement
find_displacement-distinct n zero d used ks h = cc
find_displacement-distinct n (suc rounds) d used ks h =
    elim (Bool-cases (all_distinct n d used [] ks)) [
      | inl e ↦ let same = rw e at h in ground arith
      | inr e ↦ find_displacement-distinct n rounds (d + 1) used ks (rw e at h)
    ]

-- The arrays have an element for each of the `n` slots.
pub record Spans (n : ℕ) (l : Layout) : Type 0 where
  pub filled : 0 < n
  pub table : n + defun_overflow_cap ≤ length l.slots
  pub flags : length l.used ≡ n

pub slot_of-lt : (n d : ℕ) (k : Bytes) → 0 < n → slot_of n d k < n
slot_of-lt n d k h = omega arith

written_at-Spans :
    (n d : ℕ) (k : Bytes) (v : Value) (l : Layout) → Spans n l → Spans n (written_at n d k v l)
written_at-Spans n d k v l h = record {
  filled = h.filled;
  table = rw (length-set l.slots (slot_of n d k) (some (k, v))) h.table;
  flags = length-set l.used (slot_of n d k) true ∙ h.flags;
}

pub place_keys-Spans :
    (n d : ℕ) (ks : List Key) (l : Layout) → Spans n l → Spans n (place_keys n d ks l)
unfolding place_keys
place_keys-Spans n d [] l h = h
place_keys-Spans n d ((k, v) ∷ ks) l h =
    place_keys-Spans n d ks (written_at n d k v l) (written_at-Spans n d k v l h)

-- A slot in use keeps its entry.
pub place_keys-keeps :
    (n d : ℕ) (ks : List Key) (l : Layout) (j : ℕ)
    → Spans n l
    → all_distinct n d l.used [] ks ≡ true
    → get_or l.used j false ≡ true
    → (slot_at (place_keys n d ks l).slots j ≡ slot_at l.slots j)
      × (get_or (place_keys n d ks l).used j false ≡ true)
unfolding place_keys
place_keys-keeps n d [] l j h e u = (refl, u)
place_keys-keeps n d ((k, v) ∷ ks) l j h e u =
    let (free, rest) = first_free n d l.used k v ks e in
    let apart : slot_of n d k ≢ j = λ p. cc (rw p at free) in
    let (a, b) =
      place_keys-keeps n d ks (written_at n d k v l) j (written_at-Spans n d k v l h) rest
        (get_or-set_ne l.used (slot_of n d k) j true false apart ∙ u) in
    (a ∙ get_or-set_ne l.slots (slot_of n d k) j (some (k, v)) none apart, b)

-- Each key of the bucket gets its slot.
pub place_keys-lands :
    (n d : ℕ) (ks : List Key) (l : Layout) (m : Bytes) (w : Value)
    → Spans n l
    → all_distinct n d l.used [] ks ≡ true
    → boot_find m ks ≡ some w
    → (slot_at (place_keys n d ks l).slots (slot_of n d m) ≡ some (m, w))
      × (get_or (place_keys n d ks l).used (slot_of n d m) false ≡ true)
unfolding boot_find place_keys
place_keys-lands n d [] l m w h e f = cc
place_keys-lands n d ((k, v) ∷ ks) l m w h e f =
    let (free, rest) = first_free n d l.used k v ks e in
    let next = written_at-Spans n d k v l h in
    let low = slot_of-lt n d k h.filled in
    elim (Bool-cases (byte_eq k m)) [
      | inr g ↦ place_keys-lands n d ks (written_at n d k v l) m w next rest (rw g at f)
      | inl g ↦
          let km : k ≡ m = byte_eq→eq k m g in
          let vw : some v ≡ some w = rw g at f in
          let (a, b) =
            place_keys-keeps n d ks (written_at n d k v l) (slot_of n d k) next rest
              (get_or-set_self l.used (slot_of n d k) true false (omega (arith, low, h.flags))) in
          let at_slot =
            get_or-set_self l.slots (slot_of n d k) (some (k, v)) none
              (omega (arith, low, h.table)) in
          rw (← km) (a ∙ at_slot ∙ cc, b)
    ]

-- A slot holds keys with the property, or nothing.
abbrev pub Holding : (Key → Type 0) → Slot → Type 0
Holding P none = Unit
Holding P (some e) = P e

set-Holding :
    (P : Key → Type 0) (ts : List Slot) (i : ℕ) (e : Key)
    → P e
    → ((j : ℕ) → Holding P (slot_at ts j))
    → (j : ℕ) → Holding P (slot_at (set ts i (some e)) j)
set-Holding P [] i e p h j = h j
set-Holding P (x ∷ xs) zero e p h zero = p
set-Holding P (x ∷ xs) zero e p h (suc j) = h (suc j)
set-Holding P (x ∷ xs) (suc i) e p h zero = h zero
set-Holding P (x ∷ xs) (suc i) e p h (suc j) = set-Holding P xs i e p (λ n. h (suc n)) j

pub place_keys-Holding :
    (P : Key → Type 0) (n d : ℕ) (ks : List Key) (l : Layout)
    → All P ks
    → ((j : ℕ) → Holding P (slot_at l.slots j))
    → (j : ℕ) → Holding P (slot_at (place_keys n d ks l).slots j)
unfolding place_keys
place_keys-Holding P n d [] l a h j = h j
place_keys-Holding P n d ((k, v) ∷ ks) l a h j =
    place_keys-Holding P n d ks (written_at n d k v l) a.1
      (λ i. set-Holding P l.slots (slot_of n d k) (k, v) a.0 h i) j

pub place_keys-disp : (n d : ℕ) (ks : List Key) (l : Layout) → (place_keys n d ks l).disp ≡ l.disp
unfolding place_keys
place_keys-disp n d [] l = refl
place_keys-disp n d ((k, v) ∷ ks) l = place_keys-disp n d ks (written_at n d k v l)
