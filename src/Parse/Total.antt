-- ===== src/Parse/Total.antt =====
-- reference/shen-gc/zincvm.c: the parser ends on every text, and consumes what it reads.
use fx_ui.Base.{
  ℕ, zero, suc, ◌+◌, ◌-◌, ◌*◌, ◌^◌, ◌≤◌, ◌<◌, ◌≢◌, Option, none, some, [], ◌∷◌, arith, ◌==◌, leb,
  length, length-drop, if-cases, Bool-cases, inl, inr,
}
use fx_ui.Base.Bytes.{Bytes}
use fx_ui.Base.Int.{ℤ}
use fx_ui.Value.{Instr}
use fx_ui.Parse.Reader.{
  Parsed, parsed, failed, faulted, starved, and_then, is_digit, skip_ws, read_digits, parse_int,
  expect, any_char, take_bytes, atol, number_or_fault, atom_value, parse_csexp_atom,
}
use fx_ui.Parse.Body.{
  Shape, shape_of, then_step, parse_step, parse_from, parse_body, parse_csexp_list, parse_bytecode,
}

-- The fuel lasted, and at most `n` bytes are left.
abbrev pub Within : {A : Type 0} → ℕ → Parsed A → Type 0
Within n (Parsed.parsed a rest) = length rest ≤ n
Within n Parsed.failed = Unit
Within n Parsed.faulted = Unit
Within n Parsed.starved = ⊥

pub and_then-Within :
    {A B : Type 0} (n k : ℕ) (m : Parsed A) (f : A → Bytes → Parsed B)
    → Within n m
    → ((a : A) (rest : Bytes) → length rest ≤ n → Within k (f a rest))
    → Within k (and_then m f)
and_then-Within n k (parsed a rest) f h g = g a rest h
and_then-Within n k failed f h g = tt
and_then-Within n k faulted f h g = tt
and_then-Within n k starved f h g = h

pub length-skip_ws : (bs : Bytes) → length (skip_ws bs) ≤ length bs
unfolding skip_ws
length-skip_ws [] = omega arith
length-skip_ws (c ∷ cs) = ground (arith, length-skip_ws cs)

expect-Within : (c : ℕ) (bs : Bytes) (n : ℕ) → length bs ≤ suc n → Within n (expect c bs)
unfolding expect
expect-Within c [] n h = tt
expect-Within c (b ∷ bs) n h = elim (Bool-cases (b == c)) [
  | inl e ↦ rw e (omega arith)
  | inr e ↦ rw e tt
]

read_digits-Within : (acc : ℕ) (bs : Bytes) (n : ℕ) → length bs ≤ n → Within n (read_digits acc bs)
unfolding read_digits
read_digits-Within acc [] n h = h
read_digits-Within acc (c ∷ cs) n h = elim (Bool-cases (is_digit c)) [
  | inr e ↦ rw e h
  | inl e ↦ rw e (elim (Bool-cases (leb (2 ^ 31) (acc * 10 + (c - b'0')))) [
    | inl o ↦ rw o tt
    | inr o ↦ rw o (read_digits-Within (acc * 10 + (c - b'0')) cs n (omega arith))
  ])
]

parse_int-Within : (bs : Bytes) (n : ℕ) → length bs ≤ n → Within n (parse_int bs)
unfolding parse_int
parse_int-Within [] n h = tt
parse_int-Within (c ∷ cs) n h = elim (Bool-cases (is_digit c)) [
  | inr e ↦ rw e tt
  | inl e ↦ rw e (read_digits-Within 0 (c ∷ cs) n h)
]

any_char-Within : (bs : Bytes) (n : ℕ) → length bs ≤ n → Within n (any_char bs)
unfolding any_char
any_char-Within [] n h = tt
any_char-Within (b ∷ bs) n h = omega arith

take_bytes-Within : (len : ℕ) (bs : Bytes) (n : ℕ) → length bs ≤ n → Within n (take_bytes len bs)
unfolding take_bytes
take_bytes-Within len bs n h = elim (Bool-cases (leb len (length bs))) [
  | inr e ↦ rw e tt
  | inl e ↦ rw e (omega (arith, length-drop len bs))
]

number_or_fault-Within :
    (z : Option ℤ) (bs : Bytes) (n : ℕ) → length bs ≤ n → Within n (number_or_fault z bs)
number_or_fault-Within none bs n h = tt
number_or_fault-Within (some z) bs n h = h

atom_value-Within :
    (type : ℕ) (buf bs : Bytes) (n : ℕ) → length bs ≤ n → Within n (atom_value type buf bs)
unfolding atom_value
atom_value-Within type buf bs n h =
    if-cases (Within n) (type == b's') _ _ (λ e. h)
      (λ e.
        if-cases (Within n) (type == b'n') _ _ (λ e. number_or_fault-Within (atol buf) bs n h)
          (λ e.
            if-cases (Within n) (type == b'S') _ _ (λ e. h)
              (λ e. if-cases (Within n) (type == b'b') _ _ (λ e. h) (λ e. tt))))

-- An atom takes a byte at least.
pub parse_csexp_atom-Within :
    (bs : Bytes) (n : ℕ) → length bs ≤ suc n → Within n (parse_csexp_atom bs)
unfolding parse_csexp_atom
parse_csexp_atom-Within bs n h =
    let shorter = length-skip_ws bs in
    and_then-Within n n _ _ (expect-Within b'[' (skip_ws bs) n (omega arith)) λ _ b1 h1.
      and_then-Within n n _ _ (parse_int-Within b1 n h1) λ len b2 h2.
        and_then-Within n n _ _ (expect-Within b':' b2 n (omega arith)) λ _ b3 h3.
          and_then-Within n n _ _ (any_char-Within b3 n h3) λ type b4 h4.
            and_then-Within n n _ _ (expect-Within b']' b4 n (omega arith)) λ _ b5 h5.
              and_then-Within n n _ _ (take_bytes-Within len b5 n h5)
                λ buf b6 h6. atom_value-Within type buf b6 n h6

pub weaken : {A : Type 0} (k n : ℕ) (m : Parsed A) → k ≤ n → Within k m → Within n m
weaken k n (parsed a rest) le h = omega arith
weaken k n failed le h = tt
weaken k n faulted le h = tt
weaken k n starved le h = h

module _ (f : ℕ) (ih : (bs : Bytes) → length bs < f → Within (length bs) (parse_body f bs)) where
  body-Within : (bs : Bytes) (n : ℕ) → length bs < f → length bs ≤ n → Within n (parse_body f bs)
  body-Within bs n h le = weaken (length bs) n (parse_body f bs) le (ih bs h)

  then_step-Within :
      (i : Instr) (bs : Bytes) (n : ℕ)
      → length bs < f
      → length bs ≤ n
      → Within n (then_step (parse_body f) i bs)
  then_step-Within i bs n h le = and_then-Within n n _ _ (body-Within bs n h le) λ code rest hr. hr

  parse_step-Within :
      (s : Shape) (c : ℕ) (bs : Bytes)
      → length bs < f
      → Within (suc (length bs)) (parse_step (parse_body f) s c bs)
  parse_step-Within Shape.ends c bs h = omega arith
  parse_step-Within Shape.nested c bs h = tt
  parse_step-Within Shape.bare c bs h = then_step-Within _ bs _ h (omega arith)
  parse_step-Within Shape.with_atom c bs h =
      let n = length bs in
      and_then-Within n (suc n) _ _ (parse_csexp_atom-Within bs n (omega arith))
        λ v rest hr. then_step-Within _ rest (suc n) (omega arith) (omega arith)
  parse_step-Within Shape.with_code c bs h =
      let n = length bs in
      let shorter = length-skip_ws bs in
      and_then-Within n (suc n) _ _ (expect-Within b'(' (skip_ws bs) n (omega arith)) λ _ b1 h1.
        and_then-Within n (suc n) _ _ (body-Within b1 n (omega arith) h1) λ code b2 h2.
          and_then-Within n (suc n) _ _ (expect-Within b')' b2 n (omega arith))
            λ _ b3 h3. then_step-Within _ b3 (suc n) (omega arith) (omega arith)
  parse_step-Within Shape.unknown c bs h = tt

  parse_from-Within :
      (bs : Bytes) → length bs < suc f → Within (length bs) (parse_from (parse_body f) bs)
  parse_from-Within [] h = omega arith
  parse_from-Within (c ∷ bs) h = parse_step-Within (shape_of c) c bs (omega arith)

parse_body-Within : (f : ℕ) (bs : Bytes) → length bs < f → Within (length bs) (parse_body f bs)
unfolding parse_body
parse_body-Within zero bs h = elim h [ ]
parse_body-Within (suc f) bs h =
    let shorter = length-skip_ws bs in
    weaken (length (skip_ws bs)) (length bs) _ shorter
      (parse_from-Within f (parse_body-Within f) (skip_ws bs) (omega arith))

-- A list takes the fuel that its text gives.
pub parse_csexp_list-Within :
    (bs : Bytes) → Within (length bs) (parse_csexp_list (length bs + 1) bs)
unfolding parse_csexp_list
parse_csexp_list-Within bs =
    let n = length bs in
    let shorter = length-skip_ws bs in
    and_then-Within n n _ _ (expect-Within b'(' (skip_ws bs) n (omega arith)) λ _ b1 h1.
      and_then-Within n n _ _
        (weaken (length b1) n _ h1 (parse_body-Within (n + 1) b1 (omega arith)))
        λ code b2 h2. and_then-Within n n _ _ (expect-Within b')' b2 n (omega arith)) λ _ b3 h3. h3

parse_bytecode-Within : (bs : Bytes) → Within (length bs) (parse_bytecode bs)
unfolding parse_bytecode
parse_bytecode-Within bs = parse_csexp_list-Within bs

starved-Within : {A : Type 0} (n : ℕ) (m : Parsed A) → Within n m → m ≢ starved
starved-Within n (parsed a rest) h e = cc
starved-Within n failed h e = cc
starved-Within n faulted h e = cc
starved-Within n starved h e = h

-- The parser ends on every text: with code, with a parse error, or in undefined behaviour.
pub parse_bytecode_total : (bs : Bytes) → parse_bytecode bs ≢ Parsed.starved
parse_bytecode_total bs = starved-Within (length bs) (parse_bytecode bs) (parse_bytecode-Within bs)
