-- ===== src/Bundle/Start.antt =====
-- reference/shen-gc/zincvm.c: the start of the machine: `init_globals`, then `vm_load_bundle`.
use fx_ui.Base.{
  ℕ, suc, ◌+◌, ◌-◌, ◌≤◌, ◌≡◌, refl, sym, ◌∙◌, ap, true, false, List, [], ◌∷◌, arith, All, length,
  Option, none, some,
}
use fx_ui.Base.Bytes.{Bytes, codes}
use fx_ui.Value.{Value}
use fx_ui.Parse.Reader.{is_space, skip_ws}
use fx_ui.Table
use fx_ui.Table.ValuesTable.{ValuesTable, value_get, empty_table}
use fx_ui.Table.DefunTable.{DefunTable, defun_find, set_bootstrap}
use fx_ui.Table.DefunTable.Laws.{IsValid}
use fx_ui.Table.Freeze.{Frozen, defun_freeze, defun_table_cap, defun_overflow_cap}
use fx_ui.Table.Freeze.Laws.{defun_freeze_lem, defun_freeze-not_aborted}
use fx_ui.Bundle.{Loaded, entry_closure}
use fx_ui.Bundle.Encode.{Entry, encode_entries, encode_bundle, EntryFits, latest, set_entries}
use fx_ui.Bundle.RoundTrip.{parse_bundle-encode_bundle}
use fx_ui.Bundle.Boot.{
  StdFiles, Booted, init_globals, keywords, prim_list, initial_values, set_values, is_bundle,
  after_freeze, after_parse, vm_load_bundle,
}
use fx_ui.Bundle.Fills.{
  Boots, weaken-Boots, set_bootstrap-Boots, set_bootstrap_some, prim_or, keyword_or,
  init_globals-Fills, set_entries-Boots, add_keywords-Fills,
}

module _ (io : StdFiles) (prims : List Bytes) where
  stored_values :
      (v : ValuesTable) × (set_values (initial_values io prims) empty_table
        ≡ Table.ValuesTable.Stored.stored v)
      × (value_get (codes "primitive?-names") v ≡ some (prim_list prims Value.nil))
  unfolding set_values fx_ui.Table.ValuesTable.value_set fx_ui.Table.ValuesTable.empty_table
      fx_ui.Table.ValuesTable.find_slot fx_ui.Table.ValuesTable.probe
      fx_ui.Table.ValuesTable.value_get fx_ui.Table.Hash.hash_name fx_ui.Base.Bytes.byte_eq
      fx_ui.Table.Hash.fnv
  stored_values = (_, refl, refl)

  -- What the start ends in: it neither exits nor meets undefined behaviour, and where it ends the
  -- table is frozen.
  abbrev pub Starts : List Entry → Booted → Type 0
  Starts es (Booted.booted n t v) =
      (n ≡ length es)
      × IsValid t
      × (t.runtime ≡ true)
      × ((m : Bytes) → defun_find m t ≡ keyword_or keywords m (latest m es (prim_or prims m none)))
      × (value_get (codes "primitive?-names") v ≡ some (prim_list prims Value.nil))
  Starts es Booted.exited = ⊥
  Starts es Booted.faulted = ⊥
  Starts es Booted.unended = Unit

  after_freeze-Starts :
      (es : List Entry) (rounds : ℕ) (t : DefunTable) (v : ValuesTable) (o : Frozen)
      → defun_freeze rounds t ≡ o
      → Boots 1 (defun_table_cap - defun_overflow_cap) t
      → ((m : Bytes) → defun_find m t ≡ keyword_or keywords m (latest m es (prim_or prims m none)))
      → value_get (codes "primitive?-names") v ≡ some (prim_list prims Value.nil)
      → Starts es (after_freeze (length es) v o)
  after_freeze-Starts es rounds t v Frozen.unbuilt e b finds names = tt
  after_freeze-Starts es rounds t v Frozen.aborted e b finds names =
      defun_freeze-not_aborted rounds t b.boot b.distinct b.least (omega (arith, b.few)) e
  after_freeze-Starts es rounds t v (Frozen.frozen t') e b finds names =
      let s = defun_freeze_lem rounds t b.boot b.distinct b.least (omega (arith, b.few)) e in
      (refl, s.valid, s.runtime, λ m. s.same m ∙ finds m, names)

no_names : (t : DefunTable) → t.runtime ≡ false → t.bootstrap ≡ [] → Boots 0 0 t
no_names t boot none_there = record {
  boot = boot;
  distinct = rw none_there tt;
  least = omega arith;
  few = rw none_there (omega arith);
}

find_nothing :
    (t : DefunTable) → t.runtime ≡ false → t.bootstrap ≡ [] → (m : Bytes) → defun_find m t ≡ none
unfolding defun_find fx_ui.Table.DefunTable.boot_find
find_nothing t boot none_there m = rw (boot, none_there) refl

stored_eq :
    {t u : DefunTable} → Table.DefunTable.Stored.stored t ≡ Table.DefunTable.Stored.stored u → t ≡ u
stored_eq e = cc

entries-Boots :
    (e : Entry) (es : List Entry) (n : ℕ) (t : DefunTable)
    → Boots 0 n t
    → Boots 1 (suc n + length es) (set_entries (e ∷ es) t)
unfolding set_entries
entries-Boots (name, body) es n t b =
    let v = entry_closure body in
    let c = set_bootstrap-Boots name v t b in
    set_entries-Boots es (suc n) (set_bootstrap name v t) (record {
      boot = c.boot;
      distinct = c.distinct;
      least = set_bootstrap_some name v t b;
      few = c.few;
    })

encode_bundle-opens :
    (e : Entry) (es : List Entry)
    → (skip_ws (encode_bundle [] (e ∷ es)) ≡ encode_bundle [] (e ∷ es))
      × (is_bundle (encode_bundle [] (e ∷ es)) ≡ true)
unfolding skip_ws is_space encode_bundle encode_entries
encode_bundle-opens (name, body) es = (refl, refl)

module _ (io : StdFiles) (prims : List Bytes) (rounds : ℕ) where
  loaded-Starts :
      (e : Entry) (es : List Entry) (t u : DefunTable)
      → Boots 0 (length prims) t
      → ((m : Bytes) → defun_find m t ≡ prim_or prims m none)
      → length prims + length (e ∷ es) + length keywords ≤ defun_table_cap - defun_overflow_cap
      → u ≡ set_entries (e ∷ es) t
      → ((m : Bytes) → defun_find m u ≡ latest m (e ∷ es) (defun_find m t))
      → Starts io prims
          (e ∷ es)
          (after_parse io prims rounds empty_table (Loaded.loaded (length (e ∷ es)) u))
  loaded-Starts e es t u b old room same finds =
      let c : Boots 1 (suc (length prims) + length es) u =
        rw same (entries-Boots e es (length prims) t b) in
      let k = add_keywords-Fills keywords (suc (length prims) + length es) u c in
      let (v, stored, names) = stored_values io prims in
      let few = k.boots.few in
      let boots : Boots 1 (defun_table_cap - defun_overflow_cap) k.table = record {
        boot = k.boots.boot;
        distinct = k.boots.distinct;
        least = k.boots.least;
        few = omega arith;
      } in
      rw (k.ends, stored)
        (after_freeze-Starts io prims (e ∷ es) rounds k.table v (defun_freeze rounds k.table) refl
          boots
          (λ m. k.finds m ∙ ap (keyword_or keywords m) (finds m ∙ ap (latest m (e ∷ es)) (old m)))
          names)

  -- From two empty tables, `init_globals` and then `vm_load_bundle` on the written form of a bundle
  -- that is not empty end in one of two ways, if the primitives, the entries and the keywords fit in
  -- the table beside its overflow tail: the search for the perfect hash is not over within its rounds
  -- or its number of buckets overflows, or the start succeeds. Then the count is that of the entries,
  -- the table is frozen and valid, and a name has in it the closure of its last entry, or itself as a
  -- primitive, or itself as a keyword's symbol, in this order, or nothing, so that a keyword which is
  -- also a primitive, as `cons`, stays the primitive; and `primitive?-names` lists the primitives.
  -- The entries are as the parser builds them, their numbers in the range of a `long`.
  pub vm_load_bundle_lem :
      (e : Entry) (es : List Entry) (t u : DefunTable)
      → All EntryFits (e ∷ es)
      → t.runtime ≡ false
      → t.bootstrap ≡ []
      → init_globals prims t ≡ Table.DefunTable.Stored.stored u
      → length prims + length (e ∷ es) + length keywords ≤ defun_table_cap - defun_overflow_cap
      → Starts io prims
          (e ∷ es)
          (vm_load_bundle io prims rounds (encode_bundle [] (e ∷ es)) u empty_table)
  unfolding vm_load_bundle
  vm_load_bundle_lem e es t u fits boot none_there filled room =
      let i = init_globals-Fills prims 0 t (no_names t boot none_there) in
      let same = stored_eq (sym filled ∙ i.ends) in
      let c : Boots 0 (length prims) u = rw same (weaken-Boots (omega arith) i.boots) in
      let old : (m : Bytes) → defun_find m u ≡ prim_or prims m none =
        λ m. rw same (i.finds m ∙ ap (prim_or prims m) (find_nothing t boot none_there m)) in
      let (skips, opens) = encode_bundle-opens e es in
      let p = parse_bundle-encode_bundle [] (e ∷ es) u tt fits c.boot in
      rw (skips, opens, p.0) (loaded-Starts e es u (set_entries (e ∷ es) u) c old room refl p.1)
