-- ===== src/Table/Freeze/Laws.antt =====
-- reference/shen-gc/zincvm.c: the table that `defun_freeze` leaves answers as the bootstrap list.
use fx_ui.Base.{
  ℕ, zero, suc, ◌+◌, ◌≤◌, ◌<◌, ◌≡◌, ◌≢◌, inl, inr, refl, sym, ◌∙◌, true, false, Option, none, some,
  List, [], arith, length, replicate, length-replicate, get_or-replicate, Holds, Bool-cases,
  Option-cases,
}
use fx_ui.Base.Bytes.{Bytes, byte_eq, byte_eq→eq, byte_eq_refl}
use fx_ui.Value.{Value}
use fx_ui.Table.Entry.{Slot, slot_at, named}
use fx_ui.Table.DefunTable.{
  DefunTable, boot_find, find_named, find_runtime, defun_find, overflow_rounds, perfect_slot,
}
use fx_ui.Table.DefunTable.Laws.{IsValid}
use fx_ui.Table.Freeze.{
  Key, dedup, Layout, check_slots, first_buckets, runtime_table, Frozen, frozen, aborted, unbuilt,
  checked, finish, build, defun_freeze, defun_table_cap, defun_overflow_cap,
}
use fx_ui.Table.Freeze.Buckets.{In}
use fx_ui.Table.Freeze.Place.{Holding}
use fx_ui.Table.Freeze.Build.{Bound, home_slot, Landed, Sound, BuiltOk, build-BuiltOk}
use fx_ui.Table.Freeze.Dedup.{
  DistinctNames, dedup-DistinctNames, boot_find-dedup, length-dedup, dedup_some,
  DistinctNames-Bound,
}
use fx_ui.Table.Freeze.Filled.{check_slots-marks}

-- The same answers, from a table that is laid out and marked for the collector.
pub record Serves (t t' : DefunTable) : Type 0 where
  pub valid : IsValid t'
  pub runtime : t'.runtime ≡ true
  pub same : (m : Bytes) → defun_find m t' ≡ defun_find m t
  pub marked : (i : ℕ) → i < t'.table_size → In i t'.marks

unnamed :
    (m : Bytes) (uniq : List Key) (o : Slot)
    → boot_find m uniq ≡ none
    → Holding (Bound uniq) o
    → named m o ≡ false
unnamed m uniq none absent h = refl
unnamed m uniq (some (k, w)) absent h = elim (Bool-cases (byte_eq k m)) [
  | inr e ↦ e
  | inl e ↦ let same = byte_eq→eq k m e in absurd (cc (rw same at h))
]

find_named-none :
    (n : ℕ) (ts : List Slot) (i : ℕ) (m : Bytes)
    → ((j : ℕ) → named m (slot_at ts j) ≡ false)
    → find_named n ts i m ≡ none
unfolding find_named
find_named-none zero ts i m h = refl
find_named-none (suc n) ts i m h = rw (h i) (find_named-none n ts (i + 1) m h)

module _ (buckets : ℕ) (uniq : List Key) (l : Layout) (marks : List ℕ) where
  abbrev table : DefunTable
  table = runtime_table (length uniq) buckets l marks

  perfect_slot_eq : (m : Bytes) → perfect_slot m table ≡ home_slot buckets uniq l.disp m
  unfolding perfect_slot
  perfect_slot_eq m = refl

  find_landed :
      (m : Bytes) (v : Value)
      → slot_at l.slots (home_slot buckets uniq l.disp m) ≡ some (m, v)
      → find_runtime m table ≡ some v
  unfolding find_runtime
  find_landed m v h = rw (perfect_slot_eq m, h, byte_eq_refl m)

  find_absent :
      (m : Bytes) → ((j : ℕ) → named m (slot_at l.slots j) ≡ false) → find_runtime m table ≡ none
  unfolding find_runtime
  find_absent m h =
      rw (
        h (perfect_slot m table),
        find_named-none (overflow_rounds table) l.slots (length uniq) m h,
      )

  find_runtime-table :
      Sound buckets uniq l
      → ((m : Bytes) (v : Value) → boot_find m uniq ≡ some v → Landed buckets uniq l m v)
      → (m : Bytes) → find_runtime m table ≡ boot_find m uniq
  find_runtime-table s landed m = elim (Option-cases (boot_find m uniq)) [
    | inl e ↦ find_absent m (λ j. unnamed m uniq (slot_at l.slots j) e (s.bound j)) ∙ sym e
    | inr (v, e) ↦ find_landed m v (landed m v e).0 ∙ sym e
  ]

-- How a freeze may end; it is never aborted.
abbrev pub FreezeOk : DefunTable → Frozen → Type 0
FreezeOk t (frozen t') = Serves t t'
FreezeOk t aborted = ⊥
FreezeOk t unbuilt = Unit

defun_find_bootstrap :
    (m : Bytes) (t : DefunTable) → t.runtime ≡ false → defun_find m t ≡ boot_find m t.bootstrap
unfolding defun_find
defun_find_bootstrap m t r = rw r

runtime_find :
    (m : Bytes) (n buckets : ℕ) (l : Layout) (marks : List ℕ)
    → defun_find m (runtime_table n buckets l marks)
      ≡ find_runtime m (runtime_table n buckets l marks)
unfolding defun_find
runtime_find m n buckets l marks = refl

checked-FreezeOk :
    (t : DefunTable) (uniq : List Key) (buckets : ℕ) (l : Layout)
    → DistinctNames uniq
    → ((m : Bytes) → boot_find m uniq ≡ defun_find m t)
    → BuiltOk uniq (buckets, l)
    → FreezeOk t (checked (length uniq) buckets l (check_slots l.slots 0 (length uniq) t.marks))
unfolding BuiltOk
checked-FreezeOk t uniq buckets l distinct same (some_bucket, (s, landed)) =
    let (ms, e, marked) =
      check_slots-marks buckets uniq l s landed distinct 0 (length uniq) t.marks (omega arith) in
    rw e (record {
      valid = record { filled = s.spans.filled; tail = omega arith; fits = s.spans.table };
      runtime = refl;
      same = λ m.
          runtime_find m (length uniq) buckets l ms
          ∙ find_runtime-table buckets uniq l ms s landed m
          ∙ same m;
      marked = λ i low. marked i (inr (omega arith, low));
    })

finish-FreezeOk :
    (t : DefunTable) (uniq : List Key) (o : Option (ℕ × Layout))
    → DistinctNames uniq
    → ((m : Bytes) → boot_find m uniq ≡ defun_find m t)
    → Holds (BuiltOk uniq) o
    → FreezeOk t (finish (length uniq) t.marks o)
finish-FreezeOk t uniq none distinct same h = tt
finish-FreezeOk t uniq (some (buckets, l)) distinct same h =
    checked-FreezeOk t uniq buckets l distinct same h

first_buckets_pos : (n : ℕ) → 0 < first_buckets n
first_buckets_pos n = ground arith

none_held : (P : Key → Type 0) (n j : ℕ) → Holding P (slot_at (replicate n none) j)
none_held P n j = rw (get_or-replicate {A = Slot} n j none) tt

defun_freeze-FreezeOk :
    (rounds : ℕ) (t : DefunTable)
    → t.runtime ≡ false
    → DistinctNames t.bootstrap
    → 1 ≤ length t.bootstrap
    → length t.bootstrap + defun_overflow_cap ≤ defun_table_cap
    → FreezeOk t (defun_freeze rounds t)
unfolding defun_freeze
defun_freeze-FreezeOk rounds t boot distinct some_key room =
    let uniq = dedup t.bootstrap [] in
    let apart = dedup-DistinctNames t.bootstrap [] tt in
    let (lo, hi) = length-dedup t.bootstrap [] in
    let filled = dedup_some t.bootstrap some_key in
    finish-FreezeOk t uniq
      (build rounds (first_buckets (length uniq)) uniq (replicate defun_table_cap none)) apart
      (λ m. boot_find-dedup m t.bootstrap distinct ∙ sym (defun_find_bootstrap m t boot))
      (build-BuiltOk uniq rounds (first_buckets (length uniq)) (replicate defun_table_cap none)
        (DistinctNames-Bound uniq apart) (first_buckets_pos (length uniq)) (omega arith)
        (rw (length-replicate {A = Slot} defun_table_cap none) (omega arith))
        (none_held (Bound uniq) defun_table_cap))

at_frozen : (t t' : DefunTable) (o : Frozen) → o ≡ frozen t' → FreezeOk t o → Serves t t'
at_frozen t t' o e h = rw e at h

at_aborted : (t : DefunTable) (o : Frozen) → FreezeOk t o → o ≢ aborted
at_aborted t o h e = rw e at h

module _ (rounds : ℕ) (t : DefunTable) (boot : t.runtime ≡ false)
    (distinct : DistinctNames t.bootstrap) (some_key : 1 ≤ length t.bootstrap)
    (room : length t.bootstrap + defun_overflow_cap ≤ defun_table_cap) where
  -- When the construction ends within the rounds, the runtime table finds under every name what the
  -- bootstrap list of distinct names held, its slots lie in the array, and every perfect slot is
  -- marked dirty, if there is a key and the keys and the overflow tail fit in the table.
  pub defun_freeze_lem : {t' : DefunTable} → defun_freeze rounds t ≡ frozen t' → Serves t t'
  defun_freeze_lem {t'} e =
      at_frozen t t' (defun_freeze rounds t) e
        (defun_freeze-FreezeOk rounds t boot distinct some_key room)

  -- The closing assertions of the freeze never abort the program: each of the perfect slots holds a
  -- key, and no name stands in two, if the names are distinct, there is one, and they fit in.
  pub defun_freeze-not_aborted : defun_freeze rounds t ≢ aborted
  defun_freeze-not_aborted =
      at_aborted t (defun_freeze rounds t)
        (defun_freeze-FreezeOk rounds t boot distinct some_key room)
