-- ===== src/Symbols/Rehash.antt =====
-- reference/shen-gc/zincvm.c: `sym_dyn_resize` keeps every pointer and its name.
use fx_ui.Base.{
  ℕ, zero, suc, ◌+◌, ◌≤◌, ◌≡◌, ◌≢◌, ◌⊎◌, refl, ◌∙◌, ap, none, some, List, [], ◌∷◌, arith, length,
  set, inl, inr,
}
use fx_ui.Base.Bytes.{Bytes}
use fx_ui.Symbols.{Cell, cell_at, first_null, put, put_at, rehash}
use fx_ui.Symbols.Cells.{taken, first_null-exists, Tight}
use fx_ui.Symbols.Entry.{
  same_length, at_entry, with_entry-cell, with_entry-Tight, taken-with_entry, with_entry-keeps,
}

-- The pointer with this text stands in the table.
abbrev pub Has : List Cell → ℕ → Bytes → Type 0
Has cs p m = (i : ℕ) × (cell_at cs i ≡ some (p, m))

-- A name stands in one cell at most.
abbrev pub Single : List Cell → Type 0
Single cs =
    (i k p q : ℕ) (m : Bytes) → cell_at cs i ≡ some (p, m) → cell_at cs k ≡ some (q, m) → i ≡ k

abbrev Disjoint : List Cell → List Cell → Type 0
Disjoint old cs =
    (i k p q : ℕ) (m : Bytes) → cell_at old i ≡ some (p, m) → cell_at cs k ≢ some (q, m)

pub record Rehashed (old cs new : List Cell) : Type 0 where
  pub tight : Tight new
  pub size : length new ≡ length cs
  pub counted : taken new ≡ taken old + taken cs
  pub moved : (p : ℕ) (m : Bytes) → Has old p m → Has new p m
  pub keeps : (p : ℕ) (m : Bytes) → Has cs p m → Has new p m
  pub origin : (p : ℕ) (m : Bytes) → Has new p m → Has old p m ⊎ Has cs p m

Single-tail : (x : Cell) (old : List Cell) → Single (x ∷ old) → Single old
Single-tail x old h i k p q m a b = let s = h (suc i) (suc k) p q m a b in cc

nothing_there : (i p : ℕ) (m : Bytes) → cell_at [] i ≡ some (p, m) → ⊥
nothing_there i p m h = cc

Has-tail : (x : Cell) (old : List Cell) (p : ℕ) (m : Bytes) → Has old p m → Has (x ∷ old) p m
Has-tail x old p m (i, h) = (suc i, h)

none_head : (old : List Cell) (p : ℕ) (m : Bytes) → Has (none ∷ old) p m → Has old p m
none_head old p m (zero, h) = cc
none_head old p m (suc i, h) = (i, h)

put-with_entry :
    (e : ℕ × Bytes) (cs : List Cell) {i : ℕ}
    → first_null (length cs) cs e.1 0 ≡ some i
    → put e cs ≡ set cs i (some e)
unfolding put
put-with_entry e cs h = ap (put_at e cs) h

zero_suc : (j : ℕ) → ◌≡◌ {A = ℕ} 0 (suc j) → ⊥
zero_suc j h = cc

head_absent :
    (e : ℕ × Bytes) (old cs : List Cell)
    → Disjoint (some e ∷ old) cs
    → (k q : ℕ) → cell_at cs k ≢ some (q, e.1)
head_absent e old cs d k q = d 0 k e.0 q e.1 refl

-- One entry of the old table is put into the new one.
module _ (cs : List Cell) (t : Tight cs) (e : ℕ × Bytes) (i : ℕ)
    (found : first_null (length cs) cs e.1 0 ≡ some i)
    (absent : (k q : ℕ) → cell_at cs k ≢ some (q, e.1)) (old : List Cell) where
  still-Disjoint :
      Single (some e ∷ old) → Disjoint (some e ∷ old) cs → Disjoint old (set cs i (some e))
  still-Disjoint s d j k p q m a b = elim (with_entry-cell cs t e i found absent k q m b) [
    | inl c ↦ zero_suc j (s 0 (suc j) q p m c.1 a)
    | inr c ↦ d (suc j) k p q m a c
  ]

  moved_cons :
      (new : List Cell)
      → Rehashed old (set cs i (some e)) new
      → (p : ℕ) (m : Bytes) → Has (some e ∷ old) p m
      → Has new p m
  moved_cons new r p m (zero, h) = r.keeps p m (i, at_entry cs t e i found absent ∙ h)
  moved_cons new r p m (suc j, h) = r.moved p m (j, h)

  Rehashed-cons :
      (new : List Cell) → Rehashed old (set cs i (some e)) new → Rehashed (some e ∷ old) cs new
  Rehashed-cons new r =
      let one = taken-with_entry cs t e i found absent in
      let count = r.counted in
      record {
        tight = r.tight;
        size = r.size ∙ same_length cs t e i found absent;
        counted = omega arith;
        moved = moved_cons new r;
        keeps = λ p m h. r.keeps p m (h.0, with_entry-keeps cs t e i found absent h.0 p m h.1);
        origin = λ p m h. elim (r.origin p m h) [
          | inl a ↦ inl (Has-tail (some e) old p m a)
          | inr b ↦ elim (with_entry-cell cs t e i found absent b.0 p m b.1) [
            | inl c ↦ inl (0, c.1)
            | inr c ↦ inr (b.0, c)
          ]
        ];
      }

pub rehash-Rehashed :
    (old cs : List Cell)
    → Tight cs
    → Single old
    → Disjoint old cs
    → taken old + taken cs ≤ length cs
    → Rehashed old cs (rehash old cs)
unfolding rehash
rehash-Rehashed [] cs t s d room = record {
  tight = t;
  size = refl;
  counted = omega arith;
  moved = λ p m h. absurd (nothing_there h.0 p m h.1);
  keeps = λ p m h. h;
  origin = λ p m h. inr h;
}
rehash-Rehashed (none ∷ old) cs t s d room =
    let r =
      rehash-Rehashed old cs t (Single-tail none old s) (λ i k p q m a. d (suc i) k p q m a) room in
    record {
      tight = r.tight;
      size = r.size;
      counted = r.counted;
      moved = λ p m h. r.moved p m (none_head old p m h);
      keeps = r.keeps;
      origin =
          λ p m h. elim (r.origin p m h) [ inl a ↦ inl (Has-tail none old p m a) | inr b ↦ inr b ];
    }
rehash-Rehashed (some e ∷ old) cs t s d room =
    let (i, found) = first_null-exists cs e.1 (omega arith) in
    let absent = head_absent e old cs d in
    let one = taken-with_entry cs t e i found absent in
    let wide = same_length cs t e i found absent in
    let more =
      rehash-Rehashed old (set cs i (some e)) (with_entry-Tight cs t e i found absent)
        (Single-tail (some e) old s) (still-Disjoint cs t e i found absent old s d) (omega arith) in
    rw (put-with_entry e cs found)
      (Rehashed-cons cs t e i found absent old (rehash old (set cs i (some e))) more)
