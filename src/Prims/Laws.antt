-- ===== src/Prims/Laws.antt =====
-- reference/shen-gc/zincvm.c: the list primitives on the lists that they are meant for.
use mathlib.Core.List.{append_assoc, append-nil}
use fx_ui.Base.{
  ℕ, suc, ◌≡◌, ◌↔◌, ◌⊎◌, inl, inr, refl, sym, ap, ◌∙◌, Bool, true, List, [], ◌∷◌, ◌++◌, length,
  Bool-cases, arith,
}
use fx_ui.Base.Int.{pos}
use fx_ui.Value.{Value, Store}
use fx_ui.Value.Equal.{deep_equal}
use fx_ui.Machine.State.{PrimResult}
use fx_ui.Prims.{
  rev_onto, count_cells, last_cdr, found_in, prim_append, prim_reverse, length_at, prim_length,
  prim_element,
}

-- The cells for `xs`, ending with `tail`.
abbrev pub cells_onto : List Value → Value → Value
cells_onto [] tail = tail
cells_onto (x ∷ xs) tail = Value.cons x (cells_onto xs tail)

abbrev pub of_list : List Value → Value
of_list xs = cells_onto xs Value.nil

abbrev pub flip : List Value → List Value → List Value
flip [] ys = ys
flip (x ∷ xs) ys = flip xs (x ∷ ys)

rev_onto-of_list :
    (xs ys : List Value) (tail : Value)
    → rev_onto (of_list xs) (cells_onto ys tail) ≡ cells_onto (flip xs ys) tail
unfolding rev_onto
rev_onto-of_list [] ys tail = refl
rev_onto-of_list (x ∷ xs) ys tail = rev_onto-of_list xs (x ∷ ys) tail

flip-flip : (xs ys zs : List Value) → flip (flip xs ys) zs ≡ flip ys (xs ++ zs)
flip-flip [] ys zs = refl
flip-flip (x ∷ xs) ys zs = flip-flip xs (x ∷ ys) zs

cells_onto-append :
    (xs ys : List Value) (tail : Value)
    → cells_onto (xs ++ ys) tail ≡ cells_onto xs (cells_onto ys tail)
cells_onto-append [] ys tail = refl
cells_onto-append (x ∷ xs) ys tail = ap (Value.cons x) (cells_onto-append xs ys tail)

abbrev pub reversed : List Value → List Value
reversed [] = []
reversed (x ∷ xs) = reversed xs ++ x ∷ []

flip-reversed : (xs ys : List Value) → flip xs ys ≡ reversed xs ++ ys
flip-reversed [] ys = refl
flip-reversed (x ∷ xs) ys = flip-reversed xs (x ∷ ys) ∙ sym (append_assoc (reversed xs) (x ∷ []) ys)

length-of_list :
    (xs : List Value) → (last_cdr (of_list xs) ≡ Value.nil) × (count_cells (of_list xs) ≡ length xs)
unfolding last_cdr count_cells
length-of_list [] = (refl, refl)
length-of_list (x ∷ xs) = let h = length-of_list xs in (h.0, ap suc h.1)

cells_of : Value → List Value
cells_of (Value.cons a d) = a ∷ cells_of d
cells_of v = []

cells_lem : (v : Value) → v ≡ cells_onto (cells_of v) (last_cdr v)
unfolding last_cdr cells_of
cells_lem (Value.cons a d) = ap (Value.cons a) (cells_lem d)
cells_lem v = refl

length-cells_of : (v : Value) → length (cells_of v) ≡ count_cells v
unfolding count_cells cells_of
length-cells_of (Value.cons a d) = ap suc (length-cells_of d)
length-cells_of v = refl

module _ {W : Type 0} (w : W) where
  -- `append` of a list and any value puts the elements in front of it, in order: of two lists, it is
  -- the list of both.
  pub prim_append_lem :
      (xs : List Value) (tail : Value) (st : List Value)
      → prim_append w (of_list xs ∷ tail ∷ st) ≡ PrimResult.primed (cells_onto xs tail) st w
  unfolding prim_append
  prim_append_lem [] tail st = refl
  prim_append_lem (x ∷ xs) tail st =
      let front = rev_onto-of_list (x ∷ xs) [] Value.nil in
      let back = rev_onto-of_list (flip (x ∷ xs) []) [] tail in
      let twice = flip-flip (x ∷ xs) [] [] ∙ append-nil (x ∷ xs) in rw (front, back, twice) refl

  reverse-of_list :
      (xs st : List Value)
      → prim_reverse w (of_list xs ∷ st) ≡ PrimResult.primed (of_list (flip xs [])) st w
  unfolding prim_reverse
  reverse-of_list [] st = refl
  reverse-of_list (x ∷ xs) st = rw (rev_onto-of_list (x ∷ xs) [] Value.nil) refl

  -- `reverse` gives the elements in the opposite order, and a second `reverse` gives the list back.
  pub prim_reverse_lem :
      (xs : List Value) (st : List Value)
      → (prim_reverse w (of_list xs ∷ st) ≡ PrimResult.primed (of_list (reversed xs)) st w)
        × (prim_reverse w (of_list (reversed xs) ∷ st) ≡ PrimResult.primed (of_list xs) st w)
  prim_reverse_lem xs st =
      let twice = flip-flip xs [] [] ∙ append-nil xs in
      let same = flip-reversed xs [] ∙ append-nil (reversed xs) in
      (
        reverse-of_list xs st ∙ rw same refl,
        rw (← same) (reverse-of_list (flip xs []) st ∙ rw twice refl),
      )

  length_at-number :
      (e : Value) (n m : ℕ) (st : List Value)
      → length_at w e n st ≡ PrimResult.primed (Value.number (pos m)) st w
      → (e ≡ Value.nil) × (n ≡ m)
  length_at-number Value.nil n m st h = (refl, cc)
  length_at-number (Value.number z) n m st h = cc
  length_at-number (Value.string s) n m st h = cc
  length_at-number (Value.symbol s) n m st h = cc
  length_at-number (Value.boolean b) n m st h = cc
  length_at-number (Value.cons a d) n m st h = cc
  length_at-number (Value.lambda c env) n m st h = cc
  length_at-number Value.mark n m st h = cc
  length_at-number (Value.prim s) n m st h = cc
  length_at-number (Value.error s) n m st h = cc
  length_at-number (Value.vector a k) n m st h = cc
  length_at-number (Value.stream f i o) n m st h = cc

  -- `length` answers `n` exactly on the lists of `n` elements; it raises an error on all other values,
  -- also on cells that end with something else than the empty list.
  pub prim_length_iff :
      (v : Value) (n : ℕ) (st : List Value)
      → (prim_length w (v ∷ st) ≡ PrimResult.primed (Value.number (pos n)) st w)
        ↔ ((xs : List Value) × (v ≡ of_list xs) × (length xs ≡ n))
  unfolding prim_length
  prim_length_iff v n st = (
    λ h.
        let (nil, count) = length_at-number (last_cdr v) (count_cells v) n st h in
        (cells_of v, cells_lem v ∙ rw nil refl, length-cells_of v ∙ count),
    λ (xs, e, k). let l = length-of_list xs in rw (e, l.0, l.1, k) refl,
  )

-- An element that `deep_equal` takes for `x`.
abbrev pub Among : Store → Value → List Value → Type 0
Among store x [] = ⊥
Among store x (y ∷ ys) = (deep_equal store x y ≡ true) ⊎ Among store x ys

found_in-Among :
    (store : Store) (x : Value) (xs : List Value)
    → (found_in store x (of_list xs) ≡ true) ↔ Among store x xs
unfolding found_in
found_in-Among store x [] = (λ h. absurd (ground arith), λ h. elim h [ ])
found_in-Among store x (y ∷ ys) =
    let more = found_in-Among store x ys in
    elim (Bool-cases (deep_equal store x y)) [
      | inl e ↦ (λ h. inl e, λ h. rw e refl)
      | inr e ↦ (
        λ h. inr (more.0 (rw e at h)),
        λ h. rw e (elim h [ inl f ↦ absurd (ground arith) | inr m ↦ more.1 m ]),
      )
    ]

-- `element?` always answers; on a list it answers true exactly if an element is `deep_equal` to the
-- value looked for.
pub prim_element_lem :
    {W : Type 0} (w : W) (store : Store) (x : Value) (xs st : List Value)
    → (b : Bool) × (prim_element w store (x ∷ of_list xs ∷ st)
        ≡ PrimResult.primed (Value.boolean b) st w)
      × ((b ≡ true) ↔ Among store x xs)
unfolding prim_element
prim_element_lem w store x xs st = (found_in store x (of_list xs), refl, found_in-Among store x xs)
