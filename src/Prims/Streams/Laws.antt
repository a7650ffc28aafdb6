-- ===== src/Prims/Streams/Laws.antt =====
-- reference/shen-gc/zincvm.c: what is read from a string stream is its text.
use fx_ui.Base.{
  ℕ, zero, suc, ◌+◌, ◌≤◌, ◌<◌, ◌≡◌, refl, sym, ◌∙◌, ap, true, false, Option, none, some, List, [],
  ◌∷◌, ◌++◌, arith, leb, length, get_elem?, set, drop, take, Bool-cases, inl, inr,
}
use fx_ui.Base.Bytes.{Bytes, codes, byte_eq_refl}
use fx_ui.Base.Int.{pos, negsuc}
use fx_ui.Value.{Value}
use fx_ui.Machine.State.{PrimResult, primed}
use fx_ui.Parse.Reader.{until_nul}
use fx_ui.Prims.Runtime.{StringStream, Runtime, no_entry, Outside, Prim}
use fx_ui.Prims.Streams.{
  max_string_streams, val_string_stream_in, prim_open, read_string, prim_read_byte,
}

get_elem?-set :
    (ss : List StringStream) (i : ℕ) (s u : StringStream)
    → get_elem? ss i ≡ some s
    → get_elem? (set ss i u) i ≡ some u
get_elem?-set [] i s u h = cc
get_elem?-set (x ∷ xs) zero s u h = refl
get_elem?-set (x ∷ xs) (suc i) s u h = get_elem?-set xs i s u h

get_elem?-length :
    (ss : List StringStream) (s : StringStream) → get_elem? (ss ++ s ∷ []) (length ss) ≡ some s
get_elem?-length [] s = refl
get_elem?-length (x ∷ xs) s = get_elem?-length xs s

there :
    (bs : Bytes) (k : ℕ)
    → k < length bs
    → (b : ℕ) × (get_elem? bs k ≡ some b) × (drop k bs ≡ b ∷ drop (suc k) bs)
there [] k h = elim h [ ]
there (b ∷ bs) zero h = (b, refl, refl)
there (b ∷ bs) (suc k) h = there bs k (omega arith)

drop_end : (bs : Bytes) (k : ℕ) → length bs ≤ k → drop k bs ≡ []
drop_end [] zero h = refl
drop_end [] (suc k) h = refl
drop_end (b ∷ bs) zero h = absurd (omega arith)
drop_end (b ∷ bs) (suc k) h = drop_end bs k (omega arith)

abbrev at_byte : Bytes → ℕ → StringStream
at_byte bs k = record { text = some bs; len = length bs; cursor = k }

abbrev add_byte : ℕ → Option Bytes → Option Bytes
add_byte b none = none
add_byte b (some bs) = some (b ∷ bs)

module _ {E : Type 0} where
  abbrev pub drained : (Runtime E → Option Bytes) → PrimResult (Runtime E) → Option Bytes
  drained rest (primed (Value.number (pos b)) st w) = add_byte b (rest w)
  drained rest (primed (Value.number (negsuc n)) st w) = some []
  drained rest r = none

  -- The bytes that are read until -1 comes; `none` if it has not come within the rounds.
  unfoldable pub drain : Outside E → ℕ → Value → Runtime E → Option Bytes
  drain out zero v w = none
  drain out (suc rounds) v w =
      drained (drain out rounds v) (prim_read_byte out Value.nil w (v ∷ []))

  read_end :
      (out : Outside E) (w : Runtime E) (i k : ℕ) (bs : Bytes)
      → get_elem? w.strings i ≡ some (at_byte bs k)
      → length bs ≤ k
      → prim_read_byte out Value.nil w (Value.stream (suc i) true true ∷ [])
        ≡ primed (Value.number (negsuc 0)) [] w
  unfolding prim_read_byte
  read_end out w i k bs h le =
      let test : leb (length bs) k ≡ true = ground arith in rw (h, test) refl

  read_next :
      (out : Outside E) (w : Runtime E) (i k b : ℕ) (bs : Bytes)
      → get_elem? w.strings i ≡ some (at_byte bs k)
      → get_elem? bs k ≡ some b
      → k < length bs
      → prim_read_byte out Value.nil w (Value.stream (suc i) true true ∷ [])
        ≡ primed
            (Value.number (pos b))
            []
            (record w { strings = set w.strings i (at_byte bs (suc k)) })
  unfolding prim_read_byte
  read_next out w i k b bs h e lt =
      let test : leb (length bs) k ≡ false = ground arith in
      let found = ap (λ o. read_string i Value.nil o w []) h in found ∙ rw (test, e) refl

  drain_from :
      (out : Outside E) (rounds : ℕ) (w : Runtime E) (i k : ℕ) (bs : Bytes)
      → get_elem? w.strings i ≡ some (at_byte bs k)
      → length bs < rounds + k
      → k ≤ length bs
      → drain out rounds (Value.stream (suc i) true true) w ≡ some (drop k bs)
  unfolding drain
  drain_from out zero w i k bs h more le = absurd (omega arith)
  drain_from out (suc rounds) w i k bs h more le = elim (Bool-cases (leb (length bs) k)) [
    | inl e ↦
        let last = drop_end bs k (ground arith) in
        rw (last, read_end out w i k bs h (ground arith)) refl
    | inr e ↦
        let (b, f, g) = there bs k (ground arith) in
        let w' = record w { strings = set w.strings i (at_byte bs (suc k)) } in
        let rest =
          drain_from out rounds w' i (suc k) bs (get_elem?-set w.strings i (at_byte bs k) _ h)
            (omega arith) (ground arith) in
        ap (drained (drain out rounds (Value.stream (suc i) true true)))
          (read_next out w i k b bs h f (ground arith))
        ∙ ap (add_byte b) rest
        ∙ ap some (sym g)
  ]

  -- A path that names no file is opened as a stream of its own characters: it can be read to the end,
  -- and what is read is the path, as long as fewer than eight string streams were ever opened.
  pub drain-prim_open :
      (out : Outside E) (w : Runtime E) (e : E) (path : Bytes) (acc : Value) (st : List Value)
      → out.fopen (until_nul (take 255 path)) true w.outside ≡ (no_entry, e)
      → length w.strings < max_string_streams
      → (v : Value) × (w' : Runtime E) × (prim_open out acc w
            (Value.string path ∷ Value.symbol (codes "in") ∷ st)
          ≡ primed v st w')
        × (drain out (length path + 1) v w' ≡ some path)
  unfolding prim_open val_string_stream_in
  drain-prim_open out w e path acc st h few =
      let entry = at_byte path 0 in
      let w' = record w { outside = e; strings = w.strings ++ entry ∷ [] } in
      let room : leb max_string_streams (length w.strings) ≡ false = ground arith in
      (
        Value.stream (suc (length w.strings)) true true,
        w',
        rw (byte_eq_refl (codes "in"), h, room) refl,
        drain_from out (length path + 1) w' (length w.strings) 0 path
            (get_elem?-length w.strings entry) (omega arith) (omega arith),
      )
