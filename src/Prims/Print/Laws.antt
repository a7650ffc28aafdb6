-- ===== src/Prims/Print/Laws.antt =====
-- reference/shen-gc/zincvm.c: `str` answers the whole printed form, whatever the buffer.
use mathlib.Core.List.{append_assoc, append-nil}
use fx_ui.Base.{
  ℕ, zero, suc, ◌+◌, ◌-◌, ◌*◌, ◌^◌, ◌≤◌, ◌<◌, ◌≡◌, refl, sym, ◌∙◌, ap, true, false, some, List, [],
  ◌∷◌, ◌++◌, arith, ltb, leb, if◌then◌else◌, length, take, Bool-cases, if-cases, inl, inr,
}
use fx_ui.Base.Bytes.{Bytes, codes}
use fx_ui.Value.{Value}
use fx_ui.Machine.State.{PrimResult}
use fx_ui.Prims.Print.{
  is_full, sv_append, atom_at, str_value, str_cells, max_levels, str_grow, cap_rounds, prim_str,
  str_result,
}

-- The printed form, with no bound but the depth.
unfoldable mutual
  pub shown : ℕ → Value → Bytes
  shown zero (Value.cons a d) = codes "..."
  shown (suc levels) (Value.cons a d) =
      codes "[" ++ (shown levels a ++ (shown_cells levels d ++ codes "]"))
  shown levels v = atom_at levels v

  pub shown_cells : ℕ → Value → Bytes
  shown_cells levels (Value.cons a d) = codes " " ++ (shown levels a ++ shown_cells levels d)
  shown_cells levels Value.nil = []
  shown_cells levels v = codes " . " ++ atom_at levels v

take_nil : (n : ℕ) → take {A = ℕ} n [] ≡ []
take_nil zero = refl
take_nil (suc n) = refl

take_all : (n : ℕ) (s : Bytes) → length s ≤ n → take n s ≡ s
take_all zero [] h = refl
take_all zero (x ∷ xs) h = absurd (omega arith)
take_all (suc n) [] h = refl
take_all (suc n) (x ∷ xs) h = ap (λ t. x ∷ t) (take_all n xs (omega arith))

take_full : (n : ℕ) (s t : Bytes) → n ≤ length s → take n (s ++ t) ≡ take n s
take_full zero s t h = refl
take_full (suc n) [] t h = absurd (omega arith)
take_full (suc n) (x ∷ xs) t h = ap (λ u. x ∷ u) (take_full n xs t (omega arith))

take_more : (n : ℕ) (s t : Bytes) → length s ≤ n → take n (s ++ t) ≡ s ++ take (n - length s) t
take_more n [] t h = ap (λ k. take k t) (omega arith)
take_more zero (x ∷ xs) t h = absurd (omega arith)
take_more (suc n) (x ∷ xs) t h =
    let same : n - length xs ≡ suc n - suc (length xs) = omega arith in
    ap (λ u. x ∷ u) (take_more n xs t (omega arith)) ∙ ap (λ k. x ∷ (xs ++ take k t)) same

length-take_min : (n : ℕ) (s : Bytes) → n ≤ length s → length (take n s) ≡ n
length-take_min zero s h = refl
length-take_min (suc n) [] h = absurd (omega arith)
length-take_min (suc n) (x ∷ xs) h = ap suc (length-take_min n xs (omega arith))

-- A buffer is what has been printed, cut to its room.
module _ (room : ℕ) where
  full_take : (t : Bytes) → is_full room (take room t) ≡ leb room (length t)
  full_take t = elim (Bool-cases (leb room (length t))) [
    | inl e ↦
        let same = length-take_min room t (ground arith) in
        ap (leb room) same ∙ sym (e ∙ ground arith)
    | inr e ↦ ap (λ s. leb room (length s)) (take_all room t (ground arith))
  ]

  full_absorb : (t s : Bytes) → is_full room (take room t) ≡ true → take room (t ++ s) ≡ take room t
  full_absorb t s h =
      let full : leb room (length t) ≡ true = sym (full_take t) ∙ h in
      take_full room t s (ground arith)

  sv_append_lem : (t s : Bytes) → sv_append room s (take room t) ≡ take room (t ++ s)
  unfolding sv_append
  sv_append_lem t s =
      if-cases (λ b. b ≡ take room (t ++ s)) (is_full room (take room t)) (take room t)
        (take room t ++ take (room - length (take room t)) s) (λ e. sym (full_absorb t s e))
        (λ e.
          let part : leb room (length t) ≡ false = sym (full_take t) ∙ e in
          let same = take_all room t (ground arith) in
          rw same (sym (take_more room t s (ground arith))))

  skip_full :
      (t s b e : Bytes)
      → b ≡ take room t
      → e ≡ take room (t ++ s)
      → (if is_full room b then b else e) ≡ take room (t ++ s)
  skip_full t s b e h g =
      if-cases (λ x. x ≡ take room (t ++ s)) (is_full room b) b e
        (λ f. h ∙ sym (full_absorb t s (ap (is_full room) (sym h) ∙ f))) (λ _. g)

  assoc3 : (t a b c : Bytes) → ((t ++ a) ++ b) ++ c ≡ t ++ (a ++ (b ++ c))
  assoc3 t a b c = append_assoc (t ++ a) b c ∙ append_assoc t a (b ++ c)

  filled :
      (levels : ℕ) (a d : Value) (t : Bytes)
      → str_value room levels a (take room t) ≡ take room (t ++ shown levels a)
      → str_cells room levels d (take room (t ++ shown levels a))
        ≡ take room ((t ++ shown levels a) ++ shown_cells levels d)
      → str_cells room levels d (str_value room levels a (take room t))
        ≡ take room (t ++ (shown levels a ++ shown_cells levels d))
  filled levels a d t p q =
      ap (str_cells room levels d) p
      ∙ q
      ∙ ap (take room) (append_assoc t (shown levels a) (shown_cells levels d))

  mutual
    unfolding str_value shown

    str_value_lem :
        (levels : ℕ) (v : Value) (t : Bytes)
        → str_value room levels v (take room t) ≡ take room (t ++ shown levels v)
    str_value_lem zero (Value.cons a d) t = sv_append_lem t (codes "...")
    str_value_lem (suc levels) (Value.cons a d) t =
        let open_t = t ++ codes "[" in
        let inside = shown levels a ++ shown_cells levels d in
        let opened = sv_append_lem t (codes "[") in
        let body = skip_full open_t inside (sv_append room (codes "[") (take room t)) _ opened (
          ap (λ b. str_cells room levels d (str_value room levels a b)) opened
          ∙ filled levels a d open_t (str_value_lem levels a open_t)
              (str_cells_lem levels d (open_t ++ shown levels a))) in
        ap (sv_append room (codes "]")) body
        ∙ sv_append_lem (open_t ++ inside) (codes "]")
        ∙ ap (take room) (
            assoc3 t (codes "[") inside (codes "]")
            ∙ ap (λ s. t ++ (codes "[" ++ s))
                (append_assoc (shown levels a) (shown_cells levels d) (codes "]")))
    str_value_lem levels v t = sv_append_lem t (atom_at levels v)

    str_cells_lem :
        (levels : ℕ) (v : Value) (t : Bytes)
        → str_cells room levels v (take room t) ≡ take room (t ++ shown_cells levels v)
    str_cells_lem levels (Value.cons a d) t =
        let blank = sv_append_lem t (codes " ") in
        skip_full t (codes " " ++ (shown levels a ++ shown_cells levels d)) (take room t) _ refl (
          ap (λ b. str_cells room levels d (str_value room levels a b)) blank
          ∙ filled levels a d (t ++ codes " ") (str_value_lem levels a (t ++ codes " "))
              (str_cells_lem levels d ((t ++ codes " ") ++ shown levels a))
          ∙ ap (take room) (append_assoc t (codes " ") (shown levels a ++ shown_cells levels d)))
    str_cells_lem levels Value.nil t = ap (take room) (sym (append-nil t))
    str_cells_lem levels v t = skip_full t (codes " . " ++ atom_at levels v) (take room t) _ refl (
        ap (sv_append room (atom_at levels v)) (sv_append_lem t (codes " . "))
        ∙ sv_append_lem (t ++ codes " . ") (atom_at levels v)
        ∙ ap (take room) (append_assoc t (codes " . ") (atom_at levels v)))

str_value-shown :
    (room : ℕ) (v : Value) → str_value room max_levels v [] ≡ take room (shown max_levels v)
str_value-shown room v =
    ap (str_value room max_levels v) (sym (take_nil room)) ∙ str_value_lem room max_levels v []

fits_now :
    (rounds size : ℕ) (v : Value)
    → length (shown max_levels v) + 1 < size
    → str_grow (suc rounds) size v ≡ some (shown max_levels v)
unfolding str_grow
fits_now rounds size v h =
    let whole = take_all (size - 1) (shown max_levels v) (omega arith) in
    let test : ltb (length (shown max_levels v)) (size - 1) ≡ true = ground arith in
    rw (str_value-shown (size - 1) v, whole, test) refl

grows :
    (rounds size : ℕ) (v : Value)
    → size ≤ length (shown max_levels v) + 1
    → str_grow (suc rounds) size v ≡ str_grow rounds (size * 2) v
unfolding str_grow
grows rounds size v h =
    let cut = length-take_min (size - 1) (shown max_levels v) (omega arith) in
    let test : ltb (size - 1) (size - 1) ≡ false = ground arith in
    rw (str_value-shown (size - 1) v, cut, test) refl

twice : (size rounds : ℕ) → size * 2 ^ suc rounds ≡ size * 2 * 2 ^ rounds
twice size rounds = grind arith

-- The buffer that is large enough is reached.
str_grow-shown :
    (rounds size : ℕ) (v : Value)
    → length (shown max_levels v) + 1 < size * 2 ^ rounds
    → str_grow (suc rounds) size v ≡ some (shown max_levels v)
str_grow-shown zero size v h = fits_now zero size v (grind arith)
str_grow-shown (suc rounds) size v h =
    elim (Bool-cases (ltb (length (shown max_levels v) + 1) size)) [
      | inl e ↦ fits_now (suc rounds) size v (ground arith)
      | inr e ↦
          let doubled = twice size rounds in
          grows (suc rounds) size v (ground arith)
          ∙ str_grow-shown rounds (size * 2) v (rw (← doubled) h)
    ]

-- What `str` answers: a symbol's name, a string itself, and the printed form of any other value.
abbrev pub str_text : Value → Bytes
str_text (Value.string s) = s
str_text v = shown max_levels v

module _ {W : Type 0} (w : W) where
  printed :
      (v : Value) (st : List Value)
      → length (shown max_levels v) + 1 < 2 ^ 30
      → str_result w (str_grow cap_rounds 4096 v) st
        ≡ PrimResult.primed (Value.string (shown max_levels v)) st w
  printed v st h = ap (λ o. str_result w o st) (str_grow-shown 18 4096 v h)

  -- `str` ends and answers the whole text of the value, cut nowhere, if the text fits in a buffer
  -- whose size is an `int`: a string as it is, any other value as printed to a depth of 100.
  pub prim_str_lem :
      (v : Value) (st : List Value)
      → length (str_text v) + 1 < 2 ^ 30
      → prim_str w (v ∷ st) ≡ PrimResult.primed (Value.string (str_text v)) st w
  unfolding prim_str shown
  prim_str_lem (Value.symbol s) st h = refl
  prim_str_lem (Value.string s) st h = refl
  prim_str_lem (Value.number z) st h = refl
  prim_str_lem (Value.boolean b) st h = refl
  prim_str_lem (Value.cons a d) st h = printed (Value.cons a d) st h
  prim_str_lem Value.nil st h = printed Value.nil st h
  prim_str_lem (Value.lambda c e) st h = printed (Value.lambda c e) st h
  prim_str_lem Value.mark st h = printed Value.mark st h
  prim_str_lem (Value.prim p) st h = printed (Value.prim p) st h
  prim_str_lem (Value.error m) st h = printed (Value.error m) st h
  prim_str_lem (Value.vector a n) st h = printed (Value.vector a n) st h
  prim_str_lem (Value.stream f i s) st h = printed (Value.stream f i s) st h
