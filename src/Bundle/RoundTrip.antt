-- ===== src/Bundle/RoundTrip.antt =====
-- reference/shen-gc/zincvm.c: every entry of a written bundle is loaded.
use fx_ui.Base.{
  ℕ, zero, suc, ◌+◌, ◌<◌, ◌≡◌, refl, ◌∙◌, ap, false, List, [], ◌∷◌, ◌++◌, arith, All, length,
  length-append, some, if◌then◌else◌,
}
use fx_ui.Base.Bytes.{Bytes, byte_eq}
use fx_ui.Value.{Value, Code}
use fx_ui.Parse.Reader.{Parsed, is_space}
use fx_ui.Parse.Encode.{encode_value, encode_code, CodeFits}
use fx_ui.Parse.Atoms.{AllSpaces, skip_ws-append, parse_csexp_atom-encode_value}
use fx_ui.Parse.RoundTrip.{length-encode_value, length-encode_code, parse_csexp_list-encode_code}
use fx_ui.Table.DefunTable.{DefunTable, set_bootstrap, defun_set, defun_find}
use fx_ui.Table.DefunTable.Scan.{boot_find-boot_set}
use fx_ui.Bundle.{Loaded, entry_closure, parse_entry, load_entries, parse_bundle}
use fx_ui.Bundle.Encode.{
  Entry, cur_of, encode_body, encode_entries, encode_bundle, EntryFits, latest, set_entries,
}

pub find-set_bootstrap :
    (name m : Bytes) (v : Value) (t : DefunTable)
    → t.runtime ≡ false
    → defun_find m (set_bootstrap name v t) ≡ (if byte_eq name m then some v else defun_find m t)
unfolding defun_find set_bootstrap
find-set_bootstrap name m v t boot = rw boot (boot_find-boot_set name m v t.bootstrap)

pub find-set_entries :
    (es : List Entry) (t : DefunTable)
    → t.runtime ≡ false
    → (m : Bytes) → defun_find m (set_entries es t) ≡ latest m es (defun_find m t)
unfolding set_entries latest set_bootstrap
find-set_entries [] t boot m = refl
find-set_entries ((name, body) ∷ es) t boot m =
    find-set_entries es (set_bootstrap name (entry_closure body) t) boot m
    ∙ ap (latest m es) (find-set_bootstrap name m (entry_closure body) t boot)

module _ (sep : Bytes) (spaces : AllSpaces sep) where
  parse_entry-encode_body :
      (name : Bytes) (body : Code) (rest : Bytes)
      → EntryFits (name, body)
      → parse_entry (sep ++ encode_value (Value.symbol name) (encode_body sep body rest))
        ≡ Parsed.parsed (some (name, body)) (sep ++ b')' ∷ rest)
  unfolding parse_entry
  parse_entry-encode_body name body rest fits =
      let code_fits : CodeFits (cur_of body) = (((refl, fits.1), refl), tt) in
      rw
        (
          parse_csexp_atom-encode_value sep spaces (Value.symbol name) (encode_body sep body rest)
              fits.0,
          parse_csexp_list-encode_code sep (cur_of body) (sep ++ b')' ∷ rest) spaces code_fits,
        )
        refl

  -- A text whose entries are loaded into a table of the bootstrap.
  module _ (f n : ℕ) (t : DefunTable) (boot : t.runtime ≡ false) where
    load_entry-encode_body :
        (name : Bytes) (body : Code) (rest : Bytes)
        → EntryFits (name, body)
        → load_entries
            (suc f)
            n
            t
            (sep ++ b'(' ∷ (sep ++ encode_value (Value.symbol name) (encode_body sep body rest)))
          ≡ load_entries f (n + 1) (set_bootstrap name (entry_closure body) t) rest
    unfolding load_entries defun_set is_space
    load_entry-encode_body name body rest fits =
        rw
          (
            skip_ws-append sep b'(' _ spaces refl,
            parse_entry-encode_body name body rest fits,
            boot,
            skip_ws-append sep b')' rest spaces refl,
          )
          refl

  load_entries-encode_entries :
      (es : List Entry) (f n : ℕ) (t : DefunTable)
      → t.runtime ≡ false
      → All EntryFits es
      → length es < f
      → load_entries f n t (encode_entries sep es)
        ≡ Loaded.loaded (n + length es) (set_entries es t)
  unfolding load_entries encode_entries set_entries set_bootstrap is_space
  load_entries-encode_entries es zero n t boot fits h = absurd (omega arith)
  load_entries-encode_entries [] (suc f) n t boot fits h =
      let same : n + 0 ≡ n = omega arith in rw (skip_ws-append sep b')' [] spaces refl, same) refl
  load_entries-encode_entries ((name, body) ∷ es) (suc f) n t boot fits h =
      let t' = set_bootstrap name (entry_closure body) t in
      let loads = load_entries-encode_entries es f (n + 1) t' boot fits.1 (omega arith) in
      let counted : n + 1 + length es ≡ n + length ((name, body) ∷ es) = omega arith in
      load_entry-encode_body f n t boot name body (encode_entries sep es) fits.0
      ∙ loads
      ∙ ap (λ k. Loaded.loaded k (set_entries es t')) counted

  length-encode_entries :
      (es : List Entry) → All EntryFits es → length es < length (encode_entries sep es)
  unfolding encode_entries
  length-encode_entries [] fits = omega (arith, length-append sep (b')' ∷ []))
  length-encode_entries ((name, body) ∷ es) fits =
      let rest = encode_entries sep es in
      let text = encode_body sep body rest in
      let more = length-encode_entries es fits.1 in
      let code_fits : CodeFits (cur_of body) = (((refl, fits.0.1), refl), tt) in
      let ends = sep ++ b')' ∷ (sep ++ b')' ∷ rest) in
      let code = encode_code sep (cur_of body) ends in
      let inner = length-encode_code sep (cur_of body) ends code_fits in
      let named = length-encode_value (Value.symbol name) text fits.0.0 in
      omega (
        arith,
        more,
        inner,
        named,
        length-append sep (b')' ∷ rest),
        length-append sep (b')' ∷ (sep ++ b')' ∷ rest)),
        length-append sep (b'(' ∷ code),
        length-append sep (encode_value (Value.symbol name) text),
        length-append sep (b'(' ∷ (sep ++ encode_value (Value.symbol name) text)),
      )

-- The written form of a bundle, whatever blanks separate its elements, is loaded into a table that is
-- not frozen: the count is that of the entries, and afterwards a name has the closure of its last
-- entry, its jumps resolved, or what it had before. The entries are as the parser builds them, their
-- atoms shorter than 2^31 bytes, their numbers in the range of a `long`, and their symbols without a
-- NUL.
pub parse_bundle-encode_bundle :
    (sep : Bytes) (es : List Entry) (t : DefunTable)
    → AllSpaces sep
    → All EntryFits es
    → t.runtime ≡ false
    → (parse_bundle (encode_bundle sep es) t ≡ Loaded.loaded (length es) (set_entries es t))
      × ((m : Bytes) → defun_find m (set_entries es t) ≡ latest m es (defun_find m t))
unfolding parse_bundle encode_bundle is_space
parse_bundle-encode_bundle sep es t spaces fits boot =
    let text = encode_entries sep es in
    let long = length-encode_entries sep spaces es fits in
    let loads =
      load_entries-encode_entries sep spaces es (length text + 1) 0 t boot fits (omega arith) in
    let counted : 0 + length es ≡ length es = omega arith in
    (
      rw (skip_ws-append sep b'(' text spaces refl)
          (loads ∙ ap (λ k. Loaded.loaded k (set_entries es t)) counted),
      find-set_entries es t boot,
    )
