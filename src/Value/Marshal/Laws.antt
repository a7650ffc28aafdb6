-- ===== src/Value/Marshal/Laws.antt =====
-- reference/shen-gc/zincvm.c: the tagged form of a value, and which values survive the round trip.
use fx_ui.Base.{◌≡◌, ◌↔◌, refl, Option, none, some, arith}
use fx_ui.Base.Bytes.{codes, byte_eq}
use fx_ui.Value.{Value}
use fx_ui.Value.Marshal.{
  single, tag_with, both, marshal_to_tagged, is_atom_tag, is_cons_tag, demarshal_from_tagged,
}

-- The tagged form that the comment above `marshal_to_tagged` describes, `[cons X' Y']` with both
-- parts tagged in turn.
abbrev pub tagged : Value → Value
tagged (Value.number n) = tag_with (codes "number") (Value.number n)
tagged (Value.symbol s) = tag_with (codes "symbol") (Value.symbol s)
tagged (Value.string s) = tag_with (codes "string") (Value.string s)
tagged (Value.boolean b) = tag_with (codes "boolean") (Value.boolean b)
tagged (Value.cons a b) =
    Value.cons (Value.symbol (codes "cons")) (Value.cons (tagged a) (single (tagged b)))
tagged Value.nil = Value.cons (Value.symbol (codes "cons")) Value.nil
tagged Value.mark = Value.symbol (codes "mark")
tagged v = v

-- A mark stands nowhere along the lists of the value.
abbrev pub HasNoMark : Value → Type 0
HasNoMark Value.mark = ⊥
HasNoMark (Value.cons a b) = HasNoMark a × HasNoMark b
HasNoMark _ = Unit

-- The tagged form of a value is read back as the value, whatever it holds but marks.
pub demarshal_from_tagged-tagged :
    (v : Value) → HasNoMark v → demarshal_from_tagged (tagged v) ≡ some v
unfolding demarshal_from_tagged is_atom_tag is_cons_tag byte_eq
demarshal_from_tagged-tagged (Value.cons a b) h =
    rw (demarshal_from_tagged-tagged a h.0, demarshal_from_tagged-tagged b h.1)
demarshal_from_tagged-tagged Value.mark h = elim h [ ]
demarshal_from_tagged-tagged v h = refl

both-eq-some :
    (m n : Option Value) (a b : Value)
    → both m n ≡ some (Value.cons a b)
    → (m ≡ some a) × (n ≡ some b)
both-eq-some none n a b h = cc
both-eq-some (some x) none a b h = cc
both-eq-some (some x) (some y) a b h = ground arith

-- Survives the round trip: for a pair, both parts are left alone by `demarshal_from_tagged`.
abbrev pub Survives : Value → Type 0
Survives Value.mark = ⊥
Survives (Value.cons a b) = (demarshal_from_tagged a ≡ some a) × (demarshal_from_tagged b ≡ some b)
Survives _ = Unit

-- `demarshal_from_tagged` undoes `marshal_to_tagged` on exactly the values that are no mark and, if
-- pairs, have two parts which `demarshal_from_tagged` leaves alone.
pub demarshal_from_tagged-marshal_to_tagged :
    (v : Value) → (demarshal_from_tagged (marshal_to_tagged v) ≡ some v) ↔ Survives v
unfolding demarshal_from_tagged marshal_to_tagged is_atom_tag is_cons_tag byte_eq
demarshal_from_tagged-marshal_to_tagged (Value.cons a b) =
    (λ h. both-eq-some _ _ a b h, λ h. rw (h.0, h.1))
demarshal_from_tagged-marshal_to_tagged Value.mark = (λ h. cc, λ h. elim h [ ])
demarshal_from_tagged-marshal_to_tagged v = (λ h. tt, λ h. refl)
