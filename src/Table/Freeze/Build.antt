-- ===== src/Table/Freeze/Build.antt =====
-- reference/shen-gc/zincvm.c: what a pass of `defun_freeze` over the buckets leaves in the table.
use fx_ui.Base.{
  ℕ, zero, suc, ◌+◌, ◌*◌, ◌%◌, ◌^◌, leb, if◌then◌else◌, if-cases, ◌≤◌, ◌<◌, ◌≡◌, ◌≢◌, ◌⊎◌, inl, inr,
  refl, sym, ◌∙◌, ap, true, false, Option, none, some, List, [], ◌∷◌, arith, get_or, length,
  length-set, length-replicate, get_or-set_self, get_or-set_ne, All, Holds, set,
}
use native.Mathlib.Decide.{ℕ_discrete}
use fx_ui.Base.Bytes.{Bytes}
use fx_ui.Value.{Value}
use fx_ui.Table.Hash.{hash_name_h0}
use fx_ui.Table.Entry.{Slot, slot_at}
use fx_ui.Table.DefunTable.{boot_find}
use fx_ui.Table.Freeze.{
  Key, bucket, bucket_size, order_buckets, slot_of, find_displacement, all_distinct, Layout,
  displacement_limit, settle, Pass, built, gave_up, fill_buckets, one_pass, build,
  defun_overflow_cap,
}
use fx_ui.Table.Freeze.Buckets.{
  In, boot_find-bucket, bucket-All, order_buckets-In, order_buckets-low,
}
use fx_ui.Table.Freeze.Place.{
  Spans, Holding, find_displacement-distinct, place_keys-Spans, place_keys-keeps, place_keys-lands,
  place_keys-Holding, place_keys-disp,
}

-- The binding that `uniq` gives the key's name.
abbrev pub Bound : List Key → Key → Type 0
Bound uniq (k, v) = boot_find k uniq ≡ some v

module _ (buckets : ℕ) (uniq : List Key) where
  abbrev count : ℕ
  count = length uniq

  abbrev pub home_slot : List ℕ → Bytes → ℕ
  home_slot disp m = slot_of count (get_or disp (hash_name_h0 m % buckets) 0) m

  -- The key has its slot, at the displacement of its bucket.
  abbrev pub Landed : Layout → Bytes → Value → Type 0
  Landed l m v =
      (slot_at l.slots (home_slot l.disp m) ≡ some (m, v))
      × (get_or l.used (home_slot l.disp m) false ≡ true)

  -- Every key has landed or stands in a bucket that is left.
  abbrev Reached : List ℕ → Layout → Type 0
  Reached bs l =
      (m : Bytes) (v : Value)
      → boot_find m uniq ≡ some v
      → In (hash_name_h0 m % buckets) bs ⊎ Landed l m v

  pub record Sound (l : Layout) : Type 0 where
    pub spans : Spans count l
    pub seeds : length l.disp ≡ buckets
    pub bound : (j : ℕ) → Holding (Bound uniq) (slot_at l.slots j)

  module _ (b d : ℕ) (l : Layout) (s : Sound l) (all : All (Bound uniq) uniq)
      (clear : all_distinct count d l.used [] (bucket buckets b uniq) ≡ true)
      (low : b < buckets) where
    abbrev seeded : Layout
    seeded = record l { disp = set l.disp b d }

    seeded-Spans : Spans count seeded
    seeded-Spans = record { filled = s.spans.filled; table = s.spans.table; flags = s.spans.flags }

    settle-disp : (settle count b (bucket buckets b uniq) d l).disp ≡ set l.disp b d
    settle-disp = place_keys-disp count d (bucket buckets b uniq) seeded

    settle-Sound : Sound (settle count b (bucket buckets b uniq) d l)
    settle-Sound = record {
      spans = place_keys-Spans count d (bucket buckets b uniq) seeded seeded-Spans;
      seeds = ap length settle-disp ∙ length-set l.disp b d ∙ s.seeds;
      bound =
          place_keys-Holding (Bound uniq) count d (bucket buckets b uniq) seeded
            (bucket-All (Bound uniq) buckets b uniq all) s.bound;
    }

    settle_own :
        (m : Bytes) (v : Value)
        → boot_find m uniq ≡ some v
        → hash_name_h0 m % buckets ≡ b
        → Landed (settle count b (bucket buckets b uniq) d l) m v
    settle_own m v f h =
        rw (settle-disp, h, get_or-set_self l.disp b d 0 (omega (arith, low, s.seeds)))
          (place_keys-lands count d (bucket buckets b uniq) seeded m v seeded-Spans clear
            (boot_find-bucket buckets b m uniq h ∙ f))

    settle_other :
        (m : Bytes) (v : Value)
        → b ≢ hash_name_h0 m % buckets
        → Landed l m v
        → Landed (settle count b (bucket buckets b uniq) d l) m v
    settle_other m v h (a, u) =
        let (p, q) =
          place_keys-keeps count d (bucket buckets b uniq) seeded (home_slot l.disp m) seeded-Spans
            clear u in
        rw (settle-disp, get_or-set_ne l.disp b (hash_name_h0 m % buckets) d 0 h) (p ∙ a, q)

    settle-Reached :
        (bs : List ℕ) → Reached (b ∷ bs) l → Reached bs (settle count b (bucket buckets b uniq) d l)
    settle-Reached bs h m v f = elim (ℕ_discrete b (hash_name_h0 m % buckets)) [
      | yes p ↦ inr (settle_own m v f (sym p))
      | no p ↦ elim (h m v f) [
        | inr landed ↦ inr (settle_other m v p landed)
        | inl (inl q) ↦ absurd (p (sym q))
        | inl (inr q) ↦ inl q
      ]
    ]

  -- A pass that ends has landed every key; one that gives up leaves only keys in the table.
  abbrev pub PassOk : Pass → Type 0
  PassOk (built l) = Sound l × ((m : Bytes) (v : Value) → boot_find m uniq ≡ some v → Landed l m v)
  PassOk (gave_up ts) =
      (count + defun_overflow_cap ≤ length ts) × ((j : ℕ) → Holding (Bound uniq) (slot_at ts j))

  module _ (all : All (Bound uniq) uniq) where
    nothing_left :
        (l : Layout)
        → Reached [] l
        → (m : Bytes) (v : Value) → boot_find m uniq ≡ some v
        → Landed l m v
    nothing_left l h m v f = elim (h m v f) [ inl q ↦ elim q [ ] | inr landed ↦ landed ]

    fill_next :
        (o : Option ℕ) (b : ℕ) (bs : List ℕ) (l : Layout)
        → PassOk (gave_up l.slots)
        → ((d : ℕ)
            → o ≡ some d
            → PassOk
                (fill_buckets count buckets uniq bs (settle count b (bucket buckets b uniq) d l)))
        → PassOk (elim o [
          | none ↦ gave_up l.slots
          | some d ↦ fill_buckets count buckets uniq bs (settle count b (bucket buckets b uniq) d l)
        ])
    fill_next none b bs l lost next = lost
    fill_next (some d) b bs l lost next = next d refl

    fill_buckets-PassOk :
        (bs : List ℕ) (l : Layout)
        → Sound l
        → All (λ b. b < buckets) bs
        → Reached bs l
        → PassOk (fill_buckets count buckets uniq bs l)
    unfolding fill_buckets
    fill_buckets-PassOk [] l s low h = (s, nothing_left l h)
    fill_buckets-PassOk (b ∷ bs) l s low h =
        fill_next (find_displacement displacement_limit count 0 l.used (bucket buckets b uniq)) b bs
          l (s.spans.table, s.bound)
          (λ d e.
            let clear =
              find_displacement-distinct count displacement_limit 0 l.used (bucket buckets b uniq)
                e in
            fill_buckets-PassOk bs (settle count b (bucket buckets b uniq) d l)
              (settle-Sound b d l s all clear low.0) low.1
              (settle-Reached b d l s all clear low.0 bs h))

    one_pass-PassOk :
        (ts : List Slot)
        → 0 < buckets
        → 0 < count
        → count + defun_overflow_cap ≤ length ts
        → ((j : ℕ) → Holding (Bound uniq) (slot_at ts j))
        → PassOk (one_pass buckets uniq ts)
    unfolding one_pass
    one_pass-PassOk ts some_bucket some_key room h =
        fill_buckets-PassOk (order_buckets (bucket_size buckets uniq) buckets) _
          (record {
            spans = record {
              filled = some_key;
              table = room;
              flags = length-replicate count false;
            };
            seeds = length-replicate buckets 0;
            bound = h;
          })
          (order_buckets-low (bucket_size buckets uniq) buckets)
          (λ m v f. inl (
            order_buckets-In (bucket_size buckets uniq) buckets (hash_name_h0 m % buckets)
              (omega arith)))

-- The loop ends, if it does, with every key in its slot.
unfoldable pub BuiltOk : List Key → ℕ × Layout → Type 0
BuiltOk uniq (buckets, l) = (0 < buckets) × PassOk buckets uniq (built l)

build_next :
    (uniq : List Key) (rounds buckets : ℕ) (p : Pass)
    → 0 < buckets
    → PassOk buckets uniq p
    → ((ts : List Slot)
        → length uniq + defun_overflow_cap ≤ length ts
        → ((j : ℕ) → Holding (Bound uniq) (slot_at ts j))
        → Holds (BuiltOk uniq) (build rounds (buckets * 2) uniq ts))
    → Holds (BuiltOk uniq) (elim p [
      | built l ↦ some (buckets, l)
      | gave_up ts ↦ if leb (2 ^ 31) (buckets * 2) then none else build rounds (buckets * 2) uniq ts
    ])
unfolding BuiltOk
build_next uniq rounds buckets (built l) pos ok next = (pos, ok)
build_next uniq rounds buckets (gave_up ts) pos ok next =
    if-cases (Holds (BuiltOk uniq)) (leb (2 ^ 31) (buckets * 2)) _ _ (λ e. tt)
      (λ e. next ts ok.0 ok.1)

pub build-BuiltOk :
    (uniq : List Key) (rounds buckets : ℕ) (ts : List Slot)
    → All (Bound uniq) uniq
    → 0 < buckets
    → 0 < length uniq
    → length uniq + defun_overflow_cap ≤ length ts
    → ((j : ℕ) → Holding (Bound uniq) (slot_at ts j))
    → Holds (BuiltOk uniq) (build rounds buckets uniq ts)
unfolding build
build-BuiltOk uniq zero buckets ts all pos full room h = tt
build-BuiltOk uniq (suc rounds) buckets ts all pos full room h =
    build_next uniq rounds buckets (one_pass buckets uniq ts) pos
      (one_pass-PassOk buckets uniq all ts pos full room h)
      (λ ts' room' h'. build-BuiltOk uniq rounds (buckets * 2) ts' all (omega arith) full room' h')
