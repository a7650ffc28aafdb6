-- ===== src/Symbols/Entry.antt =====
-- reference/shen-gc/zincvm.c: a name that is put into the first null cell on its way.
use fx_ui.Base.{
  ℕ, suc, ◌+◌, ◌%◌, ◌<◌, ◌≡◌, ◌≢◌, ◌⊎◌, refl, sym, ◌∙◌, ap, false, none, some, List, arith, set,
  length, length-set, get_or-set_self, get_or-set_ne, inl, inr,
}
use native.Mathlib.Decide.{ℕ_discrete}
use fx_ui.Base.Bytes.{Bytes}
use fx_ui.Symbols.{Cell, cell_at, sym_intern_hash, index_of, is_null, first_null}
use fx_ui.Symbols.Cells.{taken, taken-set, OnWay, first_null_lem, Tight}

some_injective : (a b : ℕ × Bytes) → ◌≡◌ {A = Cell} (some a) (some b) → a ≡ b
some_injective a b h = cc

module _ (cs : List Cell) (t : Tight cs) (e : ℕ × Bytes) (i : ℕ)
    (found : first_null (length cs) cs e.1 0 ≡ some i)
    (absent : (k q : ℕ) → cell_at cs k ≢ some (q, e.1)) where
  abbrev pub with_entry : List Cell
  with_entry = set cs i (some e)

  pub same_length : length with_entry ≡ length cs
  same_length = length-set cs i (some e)

  index_same : (m : Bytes) (j : ℕ) → index_of with_entry m j ≡ index_of cs m j
  index_same m j = ap (λ n. (sym_intern_hash m % n + j) % n) same_length

  was_null : cell_at cs i ≡ none
  was_null = let (k, a, b, c, d, f) = first_null_lem (length cs) cs e.1 0 found in d

  pub in_cells : i < length cs
  in_cells =
      let (k, a, b, c, d, f) = first_null_lem (length cs) cs e.1 0 found in
      let low : index_of cs e.1 k < length cs = omega arith in rw (← a) low

  pub at_entry : cell_at with_entry i ≡ some e
  at_entry = get_or-set_self cs i (some e) none in_cells

  at_other : (j : ℕ) → i ≢ j → cell_at with_entry j ≡ cell_at cs j
  at_other j h = get_or-set_ne cs i j (some e) none h

  still : (j : ℕ) → is_null (cell_at cs j) ≡ false → is_null (cell_at with_entry j) ≡ false
  still j h = elim (ℕ_discrete i j) [ yes p ↦ rw (← p, at_entry) refl | no p ↦ rw (at_other j p) h ]

  way_kept : (m : Bytes) (j : ℕ) → OnWay cs m j → OnWay with_entry m j
  way_kept m j w = record {
    steps = w.steps;
    within = rw same_length w.within;
    arrives = index_same m w.steps ∙ w.arrives;
    passed =
        λ k h. ap (λ x. is_null (cell_at with_entry x)) (index_same m k) ∙ still _ (w.passed k h);
  }

  way_new : OnWay with_entry e.1 i
  way_new =
      let (k, a, b, c, d, f) = first_null_lem (length cs) cs e.1 0 found in
      way_kept e.1 i (record {
        steps = k;
        within = omega arith;
        arrives = a;
        passed = λ j h. f j (omega arith) h;
      })

  -- A cell of the new table is the new entry, or stood there before.
  pub with_entry-cell :
      (j q : ℕ) (m : Bytes)
      → cell_at with_entry j ≡ some (q, m)
      → ((j ≡ i) × ◌≡◌ {A = Cell} (some e) (some (q, m))) ⊎ (cell_at cs j ≡ some (q, m))
  with_entry-cell j q m h = elim (ℕ_discrete i j) [
    | yes p ↦ inl (sym p, sym at_entry ∙ (rw (← p) at h))
    | no p ↦ inr (sym (at_other j p) ∙ h)
  ]

  gone :
      (k q : ℕ) (m : Bytes) (p : ℕ)
      → ◌≡◌ {A = Cell} (some e) (some (p, m))
      → cell_at cs k ≡ some (q, m)
      → ⊥
  gone k q m p h g =
      let same : e.1 ≡ m = ap (λ x. x.1) (some_injective e (p, m) h) in
      absent k q (g ∙ ap (λ x. some (q, x)) (sym same))

  way_after : (j q : ℕ) (m : Bytes) → cell_at with_entry j ≡ some (q, m) → OnWay with_entry m j
  way_after j q m h = elim (with_entry-cell j q m h) [
    | inl a ↦
        let same : e.1 ≡ m = ap (λ x. x.1) (some_injective e (q, m) a.1) in rw (← same, a.0) way_new
    | inr a ↦ way_kept m j (t.way j q m a)
  ]

  single_after :
      (j k p q : ℕ) (m : Bytes)
      → cell_at with_entry j ≡ some (p, m)
      → cell_at with_entry k ≡ some (q, m)
      → j ≡ k
  single_after j k p q m h g = elim (with_entry-cell j p m h) [
    | inl a ↦ elim (with_entry-cell k q m g) [
      | inl b ↦ a.0 ∙ sym b.0
      | inr b ↦ absurd (gone k q m p a.1 b)
    ]
    | inr a ↦ elim (with_entry-cell k q m g) [
      | inl b ↦ absurd (gone j p m q b.1 a)
      | inr b ↦ t.single j k p q m a b
    ]
  ]

  pub with_entry-Tight : Tight with_entry
  with_entry-Tight = record { way = way_after; single = single_after }

  pub taken-with_entry : taken with_entry ≡ suc (taken cs)
  taken-with_entry = taken-set cs i e in_cells was_null

  -- An entry that stood in the table stands there still.
  pub with_entry-keeps :
      (j q : ℕ) (m : Bytes) → cell_at cs j ≡ some (q, m) → cell_at with_entry j ≡ some (q, m)
  with_entry-keeps j q m h = elim (ℕ_discrete i j) [
    | yes p ↦ let n = was_null in absurd (cc (rw (p, h) at n))
    | no p ↦ at_other j p ∙ h
  ]
