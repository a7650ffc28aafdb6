-- ===== src/Bundle/Total.antt =====
-- reference/shen-gc/zincvm.c: `parse_bundle` ends on every text.
use fx_ui.Base.{
  ℕ, zero, suc, ◌+◌, ◌≤◌, ◌<◌, ◌≢◌, Option, none, some, [], ◌∷◌, arith, ◌==◌, length, if-cases,
}
use fx_ui.Base.Bytes.{Bytes}
use fx_ui.Value.{Value, Code}
use fx_ui.Parse.Reader.{Parsed, skip_ws}
use fx_ui.Parse.Total.{
  Within, weaken, and_then-Within, length-skip_ws, parse_csexp_atom-Within, parse_csexp_list-Within,
}
use fx_ui.Table.DefunTable.{DefunTable, Stored, defun_set}
use fx_ui.Bundle.{
  Loaded, after_name, parse_entry, entry_closure, close_entry, after_defun, load_entry, next_entry,
  load_entries, open_bundle, parse_bundle,
}

after_name-Within : (v : Value) (bs : Bytes) (n : ℕ) → length bs ≤ n → Within n (after_name v bs)
after_name-Within (Value.symbol name) bs n h =
    and_then-Within n n _ _ (weaken (length bs) n _ h (parse_csexp_list-Within bs))
      λ code rest hr. hr
after_name-Within _ bs n h = h

parse_entry-Within : (bs : Bytes) → Within (length bs) (parse_entry bs)
unfolding parse_entry
parse_entry-Within bs =
    and_then-Within (length bs) (length bs) _ _
      (parse_csexp_atom-Within bs (length bs) (omega arith))
      λ v rest h. after_name-Within v rest (length bs) h

-- Not the end of the fuel.
abbrev Ends : Loaded → Type 0
Ends Loaded.starved = ⊥
Ends _ = Unit

module _ (k : ℕ) (more : ℕ → DefunTable → Bytes → Loaded)
    (ends : (n : ℕ) (t : DefunTable) (bs : Bytes) → length bs < k → Ends (more n t bs)) where
  close_entry-Ends :
      (n : ℕ) (t : DefunTable) (bs : Bytes) → length bs ≤ k → Ends (close_entry more n t bs)
  close_entry-Ends n t [] h = tt
  close_entry-Ends n t (c ∷ cs) h =
      if-cases Ends (c == b')') _ _ (λ e. ends (n + 1) t cs (omega arith)) (λ e. tt)

  after_defun-Ends :
      (n : ℕ) (s : Stored) (bs : Bytes) → length bs ≤ k → Ends (after_defun more n s bs)
  after_defun-Ends n Stored.overflow_full bs h = tt
  after_defun-Ends n (Stored.stored t) bs h =
      close_entry-Ends n t (skip_ws bs) (omega (arith, length-skip_ws bs))

  load_entry-Ends :
      (n : ℕ) (t : DefunTable) (p : Parsed (Option (Bytes × Code)))
      → Within k p
      → Ends (load_entry more n t p)
  load_entry-Ends n t (Parsed.parsed (some (name, body)) rest) h =
      after_defun-Ends n (defun_set name (entry_closure body) t) rest h
  load_entry-Ends n t (Parsed.parsed none rest) h = tt
  load_entry-Ends n t Parsed.failed h = tt
  load_entry-Ends n t Parsed.faulted h = tt
  load_entry-Ends n t Parsed.starved h = h

  next_entry-Ends :
      (n : ℕ) (t : DefunTable) (bs : Bytes) → length bs ≤ k → Ends (next_entry more n t bs)
  next_entry-Ends n t [] h = tt
  next_entry-Ends n t (c ∷ cs) h =
      if-cases Ends (c == b')') _ _ (λ e. tt)
        (λ e.
          if-cases Ends (c == b'(') _ _
            (λ f.
              load_entry-Ends n t _ (weaken (length cs) k _ (omega arith) (parse_entry-Within cs)))
            (λ f. tt))

load_entries-Ends :
    (f n : ℕ) (t : DefunTable) (bs : Bytes) → length bs < f → Ends (load_entries f n t bs)
unfolding load_entries
load_entries-Ends zero n t bs h = absurd (omega arith)
load_entries-Ends (suc f) n t bs h =
    next_entry-Ends f (load_entries f) (load_entries-Ends f) n t (skip_ws bs)
      (omega (arith, length-skip_ws bs))

open_bundle-Ends : (t : DefunTable) (bs : Bytes) → Ends (open_bundle t bs)
open_bundle-Ends t [] = tt
open_bundle-Ends t (c ∷ cs) =
    if-cases Ends (c == b'(') _ _ (λ e. load_entries-Ends (length cs + 1) 0 t cs (omega arith))
      (λ e. tt)

starved-Ends : (l : Loaded) → Ends l → l ≢ Loaded.starved
starved-Ends (Loaded.loaded n t) h e = cc
starved-Ends Loaded.overflow_full h e = cc
starved-Ends Loaded.faulted h e = cc
starved-Ends Loaded.starved h e = h

-- The loader ends on every text and table: with a count, in the exit for want of room, or in
-- undefined behaviour of the parser.
pub parse_bundle_total : (bs : Bytes) (t : DefunTable) → parse_bundle bs t ≢ Loaded.starved
unfolding parse_bundle
parse_bundle_total bs t =
    starved-Ends (open_bundle t (skip_ws bs)) (open_bundle-Ends t (skip_ws bs))
