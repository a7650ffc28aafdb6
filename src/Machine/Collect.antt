-- ===== src/Machine/Collect.antt =====
-- reference/shen-gc/zincvm.c: the arguments that `OP_APPLY` and `OP_APPTERM` take from the stack.
use fx_ui.Base.{
  ℕ, zero, suc, ◌≤◌, ◌≡◌, ◌↔◌, refl, ap, true, false, List, [], ◌∷◌, arith, Bool-cases, inl, inr,
}
use fx_ui.Value.{Value, Values, empty, entry, size}
use fx_ui.Machine.State.{is_mark}
use fx_ui.Machine.Calls.{Collected, args, too_many, one_more, collect}

-- The stack `rest` with the values of `vs` on it, the first on top.
abbrev pub onto : Values → List Value → List Value
onto empty rest = rest
onto (entry v vs) rest = v ∷ onto vs rest

abbrev pub NoMarks : Values → Type 0
NoMarks empty = Unit
NoMarks (entry v vs) = (is_mark v ≡ false) × NoMarks vs

-- Empty, or with a mark on top.
abbrev pub AtMark : List Value → Type 0
AtMark [] = Unit
AtMark (v ∷ vs) = is_mark v ≡ true

abbrev pub Splits : ℕ → List Value → Values → List Value → Type 0
Splits room st vs rest = (st ≡ onto vs rest) × NoMarks vs × AtMark rest × (size vs ≤ room)

-- The same of a result.
abbrev Sound : ℕ → List Value → Collected → Type 0
Sound room st (args vs rest) = Splits room st vs rest
Sound room st too_many = Unit

one_more-Sound :
    (room : ℕ) (v : Value) (st : List Value) (c : Collected)
    → is_mark v ≡ false
    → Sound room st c
    → Sound (suc room) (v ∷ st) (one_more v c)
one_more-Sound room v st (args vs rest) e h =
    let few = h.3 in (ap (λ l. v ∷ l) h.0, (e, h.1), h.2, omega arith)
one_more-Sound room v st too_many e h = tt

collect-Sound : (room : ℕ) (st : List Value) → Sound room st (collect room st)
unfolding collect
collect-Sound room [] = (refl, tt, tt, omega arith)
collect-Sound zero (v ∷ st) = elim (Bool-cases (is_mark v)) [
  | inl e ↦ rw e (refl, tt, e, omega arith)
  | inr e ↦ rw e tt
]
collect-Sound (suc room) (v ∷ st) = elim (Bool-cases (is_mark v)) [
  | inl e ↦ rw e (refl, tt, e, omega arith)
  | inr e ↦ rw e (one_more-Sound room v st (collect room st) e (collect-Sound room st))
]

collect-AtMark : (room : ℕ) (rest : List Value) → AtMark rest → collect room rest ≡ args empty rest
unfolding collect
collect-AtMark room [] h = refl
collect-AtMark zero (v ∷ vs) h = rw h refl
collect-AtMark (suc room) (v ∷ vs) h = rw h refl

collect-onto :
    (room : ℕ) (vs : Values) (rest : List Value)
    → NoMarks vs
    → AtMark rest
    → size vs ≤ room
    → collect room (onto vs rest) ≡ args vs rest
unfolding collect
collect-onto room empty rest n m h = collect-AtMark room rest m
collect-onto zero (entry v vs) rest n m h = elim h [ ]
collect-onto (suc room) (entry v vs) rest n m h =
    rw (n.0, collect-onto room vs rest n.1 m (omega arith)) refl

-- The collected arguments are exactly the values above the topmost mark, or all of them when there
-- is no mark, in the order in which they are popped; there are at most `room`; and every such split
-- of the stack is found.
pub collect_iff :
    (room : ℕ) (st : List Value) (vs : Values) (rest : List Value)
    → (collect room st ≡ args vs rest) ↔ Splits room st vs rest
collect_iff room st vs rest = (
  λ e. let sound = collect-Sound room st in rw e at sound,
  λ h. rw h.0 (collect-onto room vs rest h.1 h.2 h.3),
)
