-- ===== src/Table/DefunTable/Scan.antt =====
-- reference/shen-gc/zincvm.c: the scans of the bootstrap list and of the overflow tail.
use fx_ui.Base.{
  ℕ, zero, suc, ◌+◌, ◌≤◌, ◌<◌, ◌≡◌, ◌⊎◌, inl, inr, refl, sym, true, none, some, List, [], ◌∷◌,
  arith, if◌then◌else◌, length, set, get_or-set_self, get_or-set_ne, Bool-cases,
}
use native.Mathlib.Decide.{ℕ_discrete}
use fx_ui.Base.Bytes.{Bytes, byte_eq, byte_eq_refl, byte_eq→eq}
use fx_ui.Value.{Value}
use fx_ui.Table.Entry.{Slot, slot_at, named}
use fx_ui.Table.DefunTable.{boot_find, boot_set, find_named, is_free, find_free}

-- A binding of the bootstrap list is read back, and hides no other name.
pub boot_find-boot_set :
    (n m : Bytes) (v : Value) (ks : List (Bytes × Value))
    → boot_find m (boot_set n v ks) ≡ (if byte_eq n m then some v else boot_find m ks)
unfolding boot_find boot_set
boot_find-boot_set n m v [] = refl
boot_find-boot_set n m v ((k, w) ∷ ks) = elim (Bool-cases (byte_eq k n)) [
  | inl e ↦ rw (e, byte_eq→eq k n e) (ground arith)
  | inr e ↦ elim (Bool-cases (byte_eq k m)) [
    | inr f ↦ rw (e, f) (boot_find-boot_set n m v ks)
    | inl f ↦
        rw (e, f)
          (elim (Bool-cases (byte_eq n m)) [
            | inr g ↦ rw g
            | inl g ↦
                let km = byte_eq→eq k m f in
                let nm = byte_eq→eq n m g in absurd (cc (rw (km, ← nm, byte_eq_refl) at e))
          ])
  ]
]

-- The scan for a name depends on its tests alone.
pub find_named_cong :
    (n : ℕ) (ts us : List Slot) (i : ℕ) (m : Bytes)
    → ((j : ℕ) → named m (slot_at us j) ≡ named m (slot_at ts j))
    → find_named n us i m ≡ find_named n ts i m
unfolding find_named
find_named_cong zero ts us i m h = refl
find_named_cong (suc n) ts us i m h = rw (h i, find_named_cong n ts us (i + 1) m h)

pub find_named-named :
    (n : ℕ) (ts : List Slot) (i : ℕ) (m : Bytes) {r : ℕ}
    → find_named n ts i m ≡ some r
    → (named m (slot_at ts r) ≡ true) × (i ≤ r) × (r < i + n)
unfolding find_named
find_named-named zero ts i m h = cc
find_named-named (suc n) ts i m h = elim (Bool-cases (named m (slot_at ts i))) [
  | inl e ↦ ground arith
  | inr e ↦
      let (a, b, c) = find_named-named n ts (i + 1) m (rw e at h) in (a, omega arith, omega arith)
]

pub find_free-is_free :
    (n : ℕ) (ts : List Slot) (i : ℕ) {r : ℕ}
    → find_free n ts i ≡ some r
    → (is_free (slot_at ts r) ≡ true) × (i ≤ r) × (r < i + n)
unfolding find_free
find_free-is_free zero ts i h = cc
find_free-is_free (suc n) ts i h = elim (Bool-cases (is_free (slot_at ts i))) [
  | inl e ↦ ground arith
  | inr e ↦
      let (a, b, c) = find_free-is_free n ts (i + 1) (rw e at h) in (a, omega arith, omega arith)
]

-- A slot written under the name is found, if no slot before it has the name.
pub find_named-set :
    (n : ℕ) (ts : List Slot) (i r : ℕ) (m : Bytes) (v : Value)
    → i ≤ r
    → r < i + n
    → r < length ts
    → (find_named n ts i m ≡ some r) ⊎ (find_named n ts i m ≡ none)
    → find_named n (set ts r (some (m, v))) i m ≡ some r
unfolding find_named
find_named-set zero ts i r m v a b c h = absurd (omega arith)
find_named-set (suc n) ts i r m v a b c h = elim (ℕ_discrete i r) [
  | yes p ↦ rw (p, get_or-set_self ts r (some (m, v)) none c, byte_eq_refl m)
  | no p ↦ elim (Bool-cases (named m (slot_at ts i))) [
    | inl e ↦ absurd (p (elim (rw e at h) [ inl q ↦ ground arith | inr q ↦ cc ]))
    | inr e ↦
        rw (get_or-set_ne ts r i (some (m, v)) none (λ q. p (sym q)), e)
          (find_named-set n ts (i + 1) r m v (ground arith) (omega arith) c (rw e at h))
  ]
]
