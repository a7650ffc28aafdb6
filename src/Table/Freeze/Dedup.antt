-- ===== src/Table/Freeze/Dedup.antt =====
-- reference/shen-gc/zincvm.c: the bootstrap list binds a name once, and `defun_freeze` keeps its
-- bindings.
use fx_ui.Base.{
  suc, ◌+◌, ◌≤◌, ◌≡◌, inl, inr, refl, ◌∙◌, false, Option, none, some, List, [], ◌∷◌, arith, length,
  All, Bool-cases, if-cases,
}
use fx_ui.Base.Bytes.{Bytes, byte_eq, byte_eq→eq, byte_eq_refl, byte_eq_sym}
use fx_ui.Value.{Value}
use fx_ui.Table.DefunTable.{boot_find, boot_set}
use fx_ui.Table.DefunTable.Scan.{boot_find-boot_set}
use fx_ui.Table.Freeze.{Key, dedup}
use fx_ui.Table.Freeze.Build.{Bound}

abbrev pub DistinctNames : List Key → Type 0
DistinctNames [] = Unit
DistinctNames ((name, v) ∷ ks) = (boot_find name ks ≡ none) × DistinctNames ks

boot_find-nil : (m : Bytes) → boot_find m [] ≡ none
unfolding boot_find
boot_find-nil m = refl

-- A store keeps the names of the bootstrap list distinct.
pub boot_set-DistinctNames :
    (name : Bytes) (v : Value) (ks : List Key)
    → DistinctNames ks
    → DistinctNames (boot_set name v ks)
unfolding boot_set
boot_set-DistinctNames name v [] h = (boot_find-nil name, tt)
boot_set-DistinctNames name v ((k, w) ∷ ks) h = elim (Bool-cases (byte_eq k name)) [
  | inl e ↦ rw e h
  | inr e ↦
      let miss : byte_eq name k ≡ false = rw (byte_eq_sym name k) e in
      rw e (boot_find-boot_set name k v ks ∙ rw miss h.0, boot_set-DistinctNames name v ks h.1)
]

pub dedup-DistinctNames : (ks uniq : List Key) → DistinctNames uniq → DistinctNames (dedup ks uniq)
unfolding dedup
dedup-DistinctNames [] uniq h = h
dedup-DistinctNames ((k, v) ∷ ks) uniq h =
    dedup-DistinctNames ks (boot_set k v uniq) (boot_set-DistinctNames k v uniq h)

abbrev or_else : Option Value → Option Value → Option Value
or_else none o = o
or_else (some v) o = some v

dedup_step :
    (m k : Bytes) (v : Value) (ks uniq : List Key)
    → boot_find k ks ≡ none
    → or_else (boot_find m ks) (boot_find m (boot_set k v uniq))
      ≡ or_else (boot_find m ((k, v) ∷ ks)) (boot_find m uniq)
unfolding boot_find
dedup_step m k v ks uniq h = elim (Bool-cases (byte_eq k m)) [
  | inr e ↦ rw (boot_find-boot_set k m v uniq, e)
  | inl e ↦
      let absent : boot_find m ks ≡ none = rw (← byte_eq→eq k m e) h in
      rw (boot_find-boot_set k m v uniq, e, absent)
]

boot_find-dedup_onto :
    (m : Bytes) (ks uniq : List Key)
    → DistinctNames ks
    → boot_find m (dedup ks uniq) ≡ or_else (boot_find m ks) (boot_find m uniq)
unfolding dedup
boot_find-dedup_onto m [] uniq h = rw (boot_find-nil m)
boot_find-dedup_onto m ((k, v) ∷ ks) uniq h =
    boot_find-dedup_onto m ks (boot_set k v uniq) h.1 ∙ dedup_step m k v ks uniq h.0

or_else-none : (o : Option Value) → or_else o none ≡ o
or_else-none none = refl
or_else-none (some v) = refl

pub boot_find-dedup :
    (m : Bytes) (ks : List Key) → DistinctNames ks → boot_find m (dedup ks []) ≡ boot_find m ks
boot_find-dedup m ks h =
    boot_find-dedup_onto m ks [] h ∙ rw (boot_find-nil m) (or_else-none (boot_find m ks))

length-boot_set :
    (k : Bytes) (v : Value) (ks : List Key)
    → (length ks ≤ length (boot_set k v ks))
      × (length (boot_set k v ks) ≤ length ks + 1)
      × (1 ≤ length (boot_set k v ks))
unfolding boot_set
length-boot_set k v [] = (omega arith, omega arith, omega arith)
length-boot_set k v ((j, w) ∷ ks) =
    let (a, b, c) = length-boot_set k v ks in
    if-cases
      (λ us. (suc (length ks) ≤ length us) × (length us ≤ suc (length ks) + 1) × (1 ≤ length us))
      (byte_eq j k) ((j, v) ∷ ks) ((j, w) ∷ boot_set k v ks)
      (λ _. (omega arith, omega arith, omega arith)) (λ _. (omega arith, omega arith, omega arith))

pub length-dedup :
    (ks uniq : List Key)
    → (length uniq ≤ length (dedup ks uniq)) × (length (dedup ks uniq) ≤ length ks + length uniq)
unfolding dedup
length-dedup [] uniq = (omega arith, omega arith)
length-dedup ((k, v) ∷ ks) uniq =
    let (a, b, c) = length-boot_set k v uniq in
    let (lo, hi) = length-dedup ks (boot_set k v uniq) in (omega arith, omega arith)

pub dedup_some : (ks : List Key) → 1 ≤ length ks → 1 ≤ length (dedup ks [])
unfolding dedup
dedup_some [] h = h
dedup_some ((k, v) ∷ ks) h =
    let (a, b, c) = length-boot_set k v [] in
    let (lo, hi) = length-dedup ks (boot_set k v []) in omega arith

All-weaken : (P Q : Key → Type 0) (ks : List Key) → ((e : Key) → P e → Q e) → All P ks → All Q ks
All-weaken P Q [] f h = tt
All-weaken P Q (k ∷ ks) f h = (f k h.0, All-weaken P Q ks f h.1)

Bound-cons :
    (k : Bytes) (v : Value) (ks : List Key)
    → boot_find k ks ≡ none
    → (e : Key) → Bound ks e
    → Bound ((k, v) ∷ ks) e
unfolding boot_find
Bound-cons k v ks absent (m, w) h = elim (Bool-cases (byte_eq k m)) [
  | inr e ↦ rw e h
  | inl e ↦ let same = byte_eq→eq k m e in absurd (cc (rw same at absent))
]

pub DistinctNames-Bound : (ks : List Key) → DistinctNames ks → All (Bound ks) ks
unfolding boot_find
DistinctNames-Bound [] h = tt
DistinctNames-Bound ((k, v) ∷ ks) h = (
  rw (byte_eq_refl k),
  All-weaken (Bound ks) (Bound ((k, v) ∷ ks)) ks (Bound-cons k v ks h.0)
      (DistinctNames-Bound ks h.1),
)
