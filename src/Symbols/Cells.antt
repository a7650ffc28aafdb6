-- ===== src/Symbols/Cells.antt =====
-- reference/shen-gc/zincvm.c: linear probing in the table of symbols.
use fx_ui.Base.{
  ℕ, zero, suc, ◌+◌, ◌-◌, ◌%◌, ◌≤◌, ◌<◌, ◌≡◌, refl, sym, ◌∙◌, ap, true, false, none, some, List, [],
  ◌∷◌, arith, leb, set, length, Bool-cases, Option-cases, inl, inr,
}
use native.Mathlib.Decide.{ℕ_discrete}
use fx_ui.Base.Bytes.{Bytes, byte_eq, byte_eq→eq, byte_eq_refl}
use fx_ui.Symbols.{Cell, cell_at, sym_intern_hash, index_of, is_null, first_null, seen, search}

abbrev pub taken : List Cell → ℕ
taken [] = 0
taken (none ∷ cs) = taken cs
taken (some e ∷ cs) = suc (taken cs)

pub null_cell :
    (cs : List Cell) → taken cs < length cs → (j : ℕ) × (j < length cs) × (cell_at cs j ≡ none)
null_cell [] h = elim h [ ]
null_cell (none ∷ cs) h = (0, omega arith, refl)
null_cell (some e ∷ cs) h = let (j, b, f) = null_cell cs (omega arith) in (suc j, omega arith, f)

pub taken-set :
    (cs : List Cell) (i : ℕ) (e : ℕ × Bytes)
    → i < length cs
    → cell_at cs i ≡ none
    → taken (set cs i (some e)) ≡ suc (taken cs)
taken-set [] i e h n = elim h [ ]
taken-set (none ∷ cs) zero e h n = refl
taken-set (some x ∷ cs) zero e h n = cc
taken-set (none ∷ cs) (suc i) e h n = taken-set cs i e (omega arith) n
taken-set (some x ∷ cs) (suc i) e h n = ap suc (taken-set cs i e (omega arith) n)

-- The cell lies on the way of its name: no cell before it on that way is null.
pub record OnWay (cs : List Cell) (name : Bytes) (i : ℕ) : Type 0 where
  pub steps : ℕ
  pub within : steps < length cs
  pub arrives : index_of cs name steps ≡ i
  pub passed : (j : ℕ) → j < steps → is_null (cell_at cs (index_of cs name j)) ≡ false

some_eq : {a b : ℕ} → some a ≡ some b → a ≡ b
some_eq h = ground arith

is_null-none : (c : Cell) → is_null c ≡ true → c ≡ none
is_null-none none h = refl
is_null-none (some e) h = cc

passed_step :
    (cs : List Cell) (name : Bytes) (j m k : ℕ)
    → is_null (cell_at cs (index_of cs name j)) ≡ false
    → ((e : ℕ) → j + 1 ≤ e → e < k → is_null (cell_at cs (index_of cs name e)) ≡ false)
    → j ≤ m
    → m < k
    → is_null (cell_at cs (index_of cs name m)) ≡ false
passed_step cs name j m k e f lo hi = elim (ℕ_discrete j m) [
  | yes p ↦ rw (← p) e
  | no p ↦ f m (ground arith) hi
]

-- The first null cell, from the step `j` on.
pub first_null_lem :
    (rounds : ℕ) (cs : List Cell) (name : Bytes) (j : ℕ) {i : ℕ}
    → first_null rounds cs name j ≡ some i
    → (k : ℕ) × (index_of cs name k ≡ i)
      × (j ≤ k)
      × (k < j + rounds)
      × (cell_at cs i ≡ none)
      × ((e : ℕ) → j ≤ e → e < k → is_null (cell_at cs (index_of cs name e)) ≡ false)
unfolding first_null
first_null_lem zero cs name j h = cc
first_null_lem (suc rounds) cs name j {i} h =
    elim (Bool-cases (is_null (cell_at cs (index_of cs name j)))) [
      | inl e ↦
          let here : some (index_of cs name j) ≡ some i = rw e at h in
          let same = some_eq here in
          (
            j,
            same,
            omega arith,
            omega arith,
            rw same at (is_null-none (cell_at cs (index_of cs name j)) e),
            λ k lo hi. absurd (omega arith),
          )
      | inr e ↦
          let (k, a, b, c, d, f) = first_null_lem rounds cs name (j + 1) (rw e at h) in
          (k, a, omega arith, omega arith, d, λ m lo hi. passed_step cs name j m k e f lo hi)
    ]

first_null_total :
    (rounds : ℕ) (cs : List Cell) (name : Bytes) (j d : ℕ)
    → j ≤ d
    → d < j + rounds
    → cell_at cs (index_of cs name d) ≡ none
    → (i : ℕ) × (first_null rounds cs name j ≡ some i)
unfolding first_null
first_null_total zero cs name j d lo hi e = absurd (omega arith)
first_null_total (suc rounds) cs name j d lo hi e =
    elim (Bool-cases (is_null (cell_at cs (index_of cs name j)))) [
      | inl f ↦ (index_of cs name j, rw f refl)
      | inr f ↦ elim (ℕ_discrete j d) [
        | yes p ↦ absurd (cc (rw (p, e) at f))
        | no p ↦ rw f (first_null_total rounds cs name (j + 1) d (ground arith) (omega arith) e)
      ]
    ]

mod_small : (x n : ℕ) → x < n → x % n ≡ x
mod_small x n h = grind arith

mod_wrap : (x n : ℕ) → x < n → (x + n) % n ≡ x
mod_wrap x n h = grind arith

around : (n home j : ℕ) → home < n → j < n → (home + (j + n - home) % n) % n ≡ j
around n home j low b = elim (Bool-cases (leb home j)) [
  | inl e ↦
      let up : j + n - home ≡ j - home + n = ground arith in
      let there : home + (j - home) ≡ j = ground arith in
      rw (up, mod_wrap (j - home) n (omega arith), there) (mod_small j n b)
  | inr e ↦
      let inside : j + n - home < n = ground arith in
      let there : home + (j + n - home) ≡ j + n = ground arith in
      rw (mod_small (j + n - home) n inside, there) (mod_wrap j n b)
]

-- A table with a null cell has a place for every name.
pub first_null-exists :
    (cs : List Cell) (name : Bytes)
    → taken cs < length cs
    → (i : ℕ) × (first_null (length cs) cs name 0 ≡ some i)
first_null-exists cs name h =
    let (j, b, e) = null_cell cs h in
    let home : ℕ = sym_intern_hash name % length cs in
    let low : home < length cs = omega arith in
    let d : ℕ = (j + length cs - home) % length cs in
    let there : index_of cs name d ≡ j = around (length cs) home j low b in
    first_null_total (length cs) cs name 0 d (omega arith) (omega arith) (rw there e)

pair_eq : (p q : ℕ) (s t : Bytes) → p ≡ q → s ≡ t → ◌≡◌ {A = ℕ × Bytes} (p, s) (q, t)
pair_eq p q s t h g = cc

pub search-some :
    (rounds : ℕ) (cs : List Cell) (name : Bytes) (j : ℕ) {p : ℕ}
    → search rounds cs name j ≡ some p
    → (i : ℕ) × (cell_at cs i ≡ some (p, name))
unfolding search
search-some zero cs name j h = cc
search-some (suc rounds) cs name j {p} h = elim (Option-cases (cell_at cs (index_of cs name j))) [
  | inl e ↦ cc (rw e at h)
  | inr ((q, s), e) ↦ elim (Bool-cases (byte_eq s name)) [
    | inr f ↦ search-some rounds cs name (j + 1) (rw (e, seen, f) at h)
    | inl f ↦
        let same : some q ≡ some p = rw (e, seen, f) at h in
        (index_of cs name j, e ∙ ap some (pair_eq q p s name (some_eq same) (byte_eq→eq s name f)))
  ]
]

same_name :
    (p r : ℕ) (name s : Bytes)
    → ◌≡◌ {A = Cell} (some (p, name)) (some (r, s))
    → byte_eq s name ≡ false
    → ⊥
same_name p r name s h f = let n : name ≡ s = cc in let e = byte_eq_refl s in cc (rw n at f)

-- Names stand in one cell each, on their way.
pub record Tight (cs : List Cell) : Type 0 where
  pub way : (i p : ℕ) (m : Bytes) → cell_at cs i ≡ some (p, m) → OnWay cs m i
  pub single :
      (i k p q : ℕ) (m : Bytes) → cell_at cs i ≡ some (p, m) → cell_at cs k ≡ some (q, m) → i ≡ k

module _ (cs : List Cell) (t : Tight cs) (name : Bytes) (i p : ℕ)
    (held : cell_at cs i ≡ some (p, name)) where
  -- On the way to its cell the search passes over other names.
  search_way :
      (rounds j steps : ℕ)
      → j ≤ steps
      → steps < j + rounds
      → index_of cs name steps ≡ i
      → ((k : ℕ) → k < steps → is_null (cell_at cs (index_of cs name k)) ≡ false)
      → search rounds cs name j ≡ some p
  unfolding search
  search_way zero j steps lo hi a w = absurd (omega arith)
  search_way (suc rounds) j steps lo hi a w =
      elim (Option-cases (cell_at cs (index_of cs name j))) [
        | inl e ↦ elim (ℕ_discrete j steps) [
          | yes q ↦ absurd (cc (rw (q, a, held) at e))
          | no q ↦ let g = w j (ground arith) in absurd (cc (rw e at g))
        ]
        | inr ((r, s), e) ↦ elim (Bool-cases (byte_eq s name)) [
          | inl f ↦
              let e' : cell_at cs (index_of cs name j) ≡ some (r, name) =
                e ∙ ap (λ x. some (r, x)) (byte_eq→eq s name f) in
              let same = t.single (index_of cs name j) i r p name e' held in
              let pr : ◌≡◌ {A = Cell} (some (r, name)) (some (p, name)) =
                sym e' ∙ ap (cell_at cs) same ∙ held in
              rw (e, seen, f) cc
          | inr f ↦ elim (ℕ_discrete j steps) [
            | yes q ↦ absurd (same_name p r name s (rw (q, a, held) at e) f)
            | no q ↦
                rw (e, seen, f) (search_way rounds (j + 1) steps (ground arith) (omega arith) a w)
          ]
        ]
      ]

  pub search-held : search (length cs) cs name 0 ≡ some p
  search-held =
      let w = t.way i p name held in
      search_way (length cs) 0 w.steps (omega arith) (omega (arith, w.within)) w.arrives w.passed
