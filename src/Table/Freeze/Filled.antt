-- ===== src/Table/Freeze/Filled.antt =====
-- reference/shen-gc/zincvm.c: the assertions at the end of `defun_freeze` hold.
use fx_ui.Base.{
  ℕ, zero, suc, ◌+◌, ◌≤◌, ◌<◌, ◌≡◌, ◌⊎◌, inl, inr, refl, sym, ◌∙◌, ap, true, false, none, some,
  List, [], ◌∷◌, arith, map, length, All, Bool-cases,
}
use native.Mathlib.Decide.{ℕ_discrete}
use fx_ui.Base.Bytes.{Bytes, byte_eq, byte_eq→eq}
use fx_ui.Value.{Value}
use fx_ui.Table.Entry.{slot_at, named}
use fx_ui.Table.DefunTable.{boot_find}
use fx_ui.Table.Freeze.{Key, Layout, repeated, has_no_name, check_slots}
use fx_ui.Table.Freeze.Buckets.{In}
use fx_ui.Table.Freeze.Place.{slot_of-lt}
use fx_ui.Table.Freeze.Build.{Bound, home_slot, Landed, Sound}
use fx_ui.Table.Freeze.Dedup.{DistinctNames, DistinctNames-Bound}
use fx_ui.Table.Freeze.Pigeonhole.{AllApart, covers}

In-map :
    (P : Key → Type 0) (f : Key → ℕ) (a : ℕ) (ks : List Key)
    → All P ks
    → In a (map f ks)
    → (e : Key) × P e × (a ≡ f e)
In-map P f a [] h q = elim q [ ]
In-map P f a (k ∷ ks) h (inl p) = (k, h.0, p)
In-map P f a (k ∷ ks) h (inr q) = In-map P f a ks h.1 q

length-map : (f : Key → ℕ) (ks : List Key) → length (map f ks) ≡ length ks
length-map f [] = refl
length-map f (k ∷ ks) = ap suc (length-map f ks)

map-All : (P : ℕ → Type 0) (f : Key → ℕ) (ks : List Key) → ((e : Key) → P (f e)) → All P (map f ks)
map-All P f [] h = tt
map-All P f (k ∷ ks) h = (h k, map-All P f ks h)

some_injective : (a b : Key) → some a ≡ some b → a ≡ b
some_injective a b h = cc

All-product : (P Q : Key → Type 0) (ks : List Key) → All P ks → All Q ks → All (λ e. P e × Q e) ks
All-product P Q [] p q = tt
All-product P Q (k ∷ ks) p q = ((p.0, q.0), All-product P Q ks p.1 q.1)

head_absent :
    (m : Bytes) (v : Value) (ks : List Key) (f : Key)
    → boot_find m ks ≡ none
    → Bound ks f
    → (m, v) ≡ f
    → ⊥
head_absent m v ks f absent b p = let same : m ≡ f.0 = ap (λ e. e.0) p in cc (rw same at absent)

mark_cases :
    (i j n : ℕ) (marks : List ℕ)
    → (In j marks) ⊎ ((i ≤ j) × (j < n))
    → (In j (i ∷ marks)) ⊎ ((i + 1 ≤ j) × (j < n))
mark_cases i j n marks (inl p) = inl (inr p)
mark_cases i j n marks (inr p) = elim (ℕ_discrete j i) [
  | yes q ↦ inl (inl q)
  | no q ↦ let lo = p.0 in inr (ground arith, p.1)
]

-- A layout in which every key of `uniq` has landed.
module _ (buckets : ℕ) (uniq : List Key) (l : Layout) (s : Sound buckets uniq l)
    (landed : (m : Bytes) (v : Value) → boot_find m uniq ≡ some v → Landed buckets uniq l m v)
    (distinct : DistinctNames uniq) where
  abbrev n : ℕ
  n = length uniq

  abbrev home : Key → ℕ
  home e = home_slot buckets uniq l.disp e.0

  home_low : (e : Key) → home e < n
  home_low e = slot_of-lt n _ e.0 s.spans.filled

  home_eq : (e : Key) → Bound uniq e → slot_at l.slots (home e) ≡ some e
  home_eq (m, v) b = (landed m v b).0

  home_injective : (e f : Key) → Bound uniq e → Bound uniq f → home e ≡ home f → e ≡ f
  home_injective e f b c p =
      some_injective e f (sym (home_eq e b) ∙ ap (slot_at l.slots) p ∙ home_eq f c)

  homes-AllApart : (ks : List Key) → DistinctNames ks → All (Bound uniq) ks → AllApart (map home ks)
  homes-AllApart [] d a = tt
  homes-AllApart ((m, v) ∷ ks) d a = (
    λ q.
        let (f, c, p) =
          In-map (λ e. Bound uniq e × Bound ks e) home (home (m, v)) ks
            (All-product (Bound uniq) (Bound ks) ks a.1 (DistinctNames-Bound ks d.1)) q in
        head_absent m v ks f d.0 c.1 (home_injective (m, v) f a.0 c.0 p),
    homes-AllApart ks d.1 a.1,
  )

  -- Every slot is the home of a key, and holds it.
  slot_filled : (i : ℕ) → i < n → (e : Key) × Bound uniq e × (i ≡ home e)
  slot_filled i low =
      let all = DistinctNames-Bound uniq distinct in
      In-map (Bound uniq) home i uniq all (
        covers n (map home uniq) (homes-AllApart uniq distinct all)
          (map-All (λ x. x < n) home uniq home_low) (length-map home uniq) i low)

  slot_key : (i : ℕ) → i < n → (e : Key) × (slot_at l.slots i ≡ some e) × (i ≡ home e)
  slot_key i low = let (e, b, p) = slot_filled i low in (e, ap (slot_at l.slots) p ∙ home_eq e b, p)

  not_empty : (i : ℕ) → i < n → has_no_name (slot_at l.slots i) ≡ false
  not_empty i low = let (e, q, p) = slot_key i low in rw q

  named-home :
      (k : Bytes) (w : Value) (i : ℕ) → i < n → named k (slot_at l.slots i) ≡ true → i ≡ home (k, w)
  named-home k w i low h =
      let (e, q, p) = slot_key i low in
      let same : byte_eq e.0 k ≡ true = rw q at h in
      p ∙ ap (λ m. home_slot buckets uniq l.disp m) (byte_eq→eq e.0 k same)

  repeated_not :
      (k : Bytes) (w : Value) (i j rounds : ℕ)
      → i ≡ home (k, w)
      → i < j
      → j + rounds ≤ n
      → repeated l.slots (some (k, w)) j rounds ≡ false
  unfolding repeated
  repeated_not k w i j zero p below room = refl
  repeated_not k w i j (suc rounds) p below room = elim (Bool-cases (named k (slot_at l.slots j))) [
    | inl e ↦ let q = named-home k w j (omega arith) e in absurd (omega arith)
    | inr e ↦ rw e (repeated_not k w i (j + 1) rounds p (omega arith) (omega arith))
  ]

  -- The assertions of the last loop hold, and each slot is marked.
  pub check_slots-marks :
      (i rounds : ℕ) (marks : List ℕ)
      → i + rounds ≡ n
      → (ms : List ℕ) × (check_slots l.slots i rounds marks ≡ some ms)
        × ((j : ℕ) → (In j marks) ⊎ ((i ≤ j) × (j < n)) → In j ms)
  unfolding check_slots
  check_slots-marks i zero marks e =
      (marks, refl, λ j h. elim h [ inl p ↦ p | inr p ↦ absurd (omega (arith, p.0, p.1)) ])
  check_slots-marks i (suc rounds) marks e =
      let (k, q, p) = slot_key i (omega arith) in
      let (ms, r, inside) = check_slots-marks (i + 1) rounds (i ∷ marks) (omega arith) in
      let single = repeated_not k.0 k.1 i (i + 1) rounds p (omega arith) (omega arith) in
      (ms, rw (q, single) r, λ j h. inside j (mark_cases i j n marks h))
