-- ===== src/Table/Freeze.antt =====
-- reference/shen-gc/zincvm.c: `defun_freeze`, which turns the bootstrap list into a perfect hash.
--
-- A key is an entry of `uniq`; the keys of a bucket (`bkeys` from `boff[b]` on) are a list, in the
-- order of `uniq`. Running out of memory is not modelled.
pub mod Buckets
pub mod Place
pub mod Build
pub mod Dedup
pub mod Pigeonhole
pub mod Filled
pub mod Laws
use fx_ui.Base.{
  ℕ, zero, suc, ◌+◌, ◌*◌, ◌/◌, ◌%◌, ◌^◌, Bool, true, false, ◌||◌, Option, none, some, List, [], ◌∷◌,
  ◌==◌, leb, ltb, if◌then◌else◌, set, get_or, length, replicate,
}
use fx_ui.Base.Bytes.{Bytes, byte_eq}
use fx_ui.Value.{Value}
use fx_ui.Table.Hash.{hash_name_h0, hash_name_h1}
use fx_ui.Table.Entry.{Slot, slot_at, named}
use fx_ui.Table.DefunTable.{DefunTable, boot_set}

abbrev pub Key : Type 0
Key = Bytes × Value

-- Step 1: later entries win.
unfoldable pub dedup : List Key → List Key → List Key
dedup [] uniq = uniq
dedup ((name, v) ∷ ks) uniq = dedup ks (boot_set name v uniq)

abbrev pub in_bucket : ℕ → ℕ → Bytes → Bool
in_bucket buckets b name = (hash_name_h0 name % buckets) == b

unfoldable pub bucket : ℕ → ℕ → List Key → List Key
bucket buckets b [] = []
bucket buckets b ((name, v) ∷ ks) =
    if in_bucket buckets b name then (name, v) ∷ bucket buckets b ks else bucket buckets b ks

-- `bsize[b]`
abbrev pub bucket_size : ℕ → List Key → ℕ → ℕ
bucket_size buckets ks b = length (bucket buckets b ks)

-- The inner loop of the sort. The sorted prefix of `order` is a list with its end in front.
unfoldable pub sift : (ℕ → ℕ) → ℕ → List ℕ → List ℕ
sift bsize t [] = t ∷ []
sift bsize t (o ∷ os) = if ltb (bsize o) (bsize t) then o ∷ sift bsize t os else t ∷ o ∷ os

unfoldable pub sort_buckets : (ℕ → ℕ) → ℕ → List ℕ
sort_buckets bsize zero = []
sort_buckets bsize (suc n) = sift bsize n (sort_buckets bsize n)

unfoldable pub reverse_onto : List ℕ → List ℕ → List ℕ
reverse_onto [] out = out
reverse_onto (x ∷ xs) out = reverse_onto xs (x ∷ out)

unfoldable pub order_buckets : (ℕ → ℕ) → ℕ → List ℕ
order_buckets bsize buckets = reverse_onto (sort_buckets bsize buckets) []

-- `hash_name_h1(name, d) % N`
abbrev pub slot_of : ℕ → ℕ → Bytes → ℕ
slot_of n d name = hash_name_h1 name d % n

unfoldable pub clash : ℕ → ℕ → ℕ → List Key → Bool
clash n d slot [] = false
clash n d slot ((name, v) ∷ ks) = slot_of n d name == slot || clash n d slot ks

-- `used[slot]`, or the slot of an earlier key of the bucket; `before` holds the latest in front.
abbrev pub is_taken : ℕ → ℕ → List Bool → List Key → ℕ → Bool
is_taken n d used before slot = get_or used slot false || clash n d slot before

unfoldable pub all_distinct : ℕ → ℕ → List Bool → List Key → List Key → Bool
all_distinct n d used before [] = true
all_distinct n d used before ((name, v) ∷ ks) =
    if is_taken n d used before (slot_of n d name)
    then false
    else all_distinct n d used ((name, v) ∷ before) ks

-- `for (; d < 1000000u; d++)`, on the rounds left.
unfoldable pub find_displacement : ℕ → ℕ → ℕ → List Bool → List Key → Option ℕ
find_displacement zero n d used ks = none
find_displacement (suc rounds) n d used ks =
    let rest = find_displacement rounds n (d + 1) used ks in
    if all_distinct n d used [] ks then some d else rest

-- `used` has a byte for each slot, `disp` a displacement for each bucket.
pub record Layout : Type 0 where
  pub slots : List Slot
  pub used : List Bool
  pub disp : List ℕ

unfoldable pub place_keys : ℕ → ℕ → List Key → Layout → Layout
place_keys n d [] l = l
place_keys n d ((name, v) ∷ ks) l = place_keys n d ks (record l {
  slots = set l.slots (slot_of n d name) (some (name, v));
  used = set l.used (slot_of n d name) true;
})

abbrev pub displacement_limit : ℕ
displacement_limit = 1000000

abbrev pub settle : ℕ → ℕ → List Key → ℕ → Layout → Layout
settle n b ks d l = place_keys n d ks (record l { disp = set l.disp b d })

-- A failed pass leaves what it wrote in the table.
pub data Pass : Type 0 where
  built : Layout → Pass
  gave_up : List Slot → Pass

-- `for (oi = 0; oi < B; oi++)`
unfoldable pub fill_buckets : ℕ → ℕ → List Key → List ℕ → Layout → Pass
fill_buckets n buckets uniq [] l = Pass.built l
fill_buckets n buckets uniq (b ∷ bs) l =
    elim (find_displacement displacement_limit n 0 l.used (bucket buckets b uniq)) [
      | none ↦ Pass.gave_up l.slots
      | some d ↦ fill_buckets n buckets uniq bs (settle n b (bucket buckets b uniq) d l)
    ]

-- One round of `while (!built)`, with `used` and `disp` cleared.
unfoldable pub one_pass : ℕ → List Key → List Slot → Pass
one_pass buckets uniq slots =
    fill_buckets (length uniq) buckets uniq (order_buckets (bucket_size buckets uniq) buckets)
      (record { slots = slots; used = replicate (length uniq) false; disp = replicate buckets 0 })

-- The loop itself, on the rounds left; `none` when they are used up, and where `B *= 2` overflows an
-- `int`, which is undefined.
unfoldable pub build : ℕ → ℕ → List Key → List Slot → Option (ℕ × Layout)
build zero buckets uniq slots = none
build (suc rounds) buckets uniq slots = elim (one_pass buckets uniq slots) [
  | built l ↦ some (buckets, l)
  | gave_up slots' ↦
      let more = build rounds (buckets * 2) uniq slots' in
      if leb (2 ^ 31) (buckets * 2) then none else more
]

-- Step 8: `for (j = i + 1; j < N; j++)` on the rounds left, and the loop around it.
abbrev pub slot_name_is : Slot → Slot → Bool
slot_name_is none o = false
slot_name_is (some (name, v)) o = named name o

unfoldable pub repeated : List Slot → Slot → ℕ → ℕ → Bool
repeated ts o j zero = false
repeated ts o j (suc n) = slot_name_is o (slot_at ts j) || repeated ts o (j + 1) n

abbrev pub has_no_name : Slot → Bool
has_no_name none = true
has_no_name (some e) = false

-- The marks, or `none` for an `abort`.
unfoldable pub check_slots : List Slot → ℕ → ℕ → List ℕ → Option (List ℕ)
check_slots ts i zero marks = some marks
check_slots ts i (suc n) marks =
    let rest = check_slots ts (i + 1) n (i ∷ marks) in
    if has_no_name (slot_at ts i) || repeated ts (slot_at ts i) (i + 1) n then none else rest

abbrev pub defun_table_cap : ℕ
defun_table_cap = 4096

abbrev pub defun_overflow_cap : ℕ
defun_overflow_cap = 64

abbrev pub first_buckets : ℕ → ℕ
first_buckets n = if ltb (n / 2) 1 then 1 else n / 2

-- `unbuilt` when the rounds given do not end the loop or the number of buckets overflows, `aborted`
-- for a failed assertion.
pub data Frozen : Type 0 where
  frozen : DefunTable → Frozen
  aborted : Frozen
  unbuilt : Frozen

abbrev pub runtime_table : ℕ → ℕ → Layout → List ℕ → DefunTable
runtime_table n buckets l marks = record {
  runtime = true;
  bootstrap = [];
  slots = l.slots;
  table_size = n;
  buckets = buckets;
  displacement = l.disp;
  table_cap = n + defun_overflow_cap;
  table_used = n;
  marks = marks;
}

abbrev pub checked : ℕ → ℕ → Layout → Option (List ℕ) → Frozen
checked n buckets l none = Frozen.aborted
checked n buckets l (some marks) = Frozen.frozen (runtime_table n buckets l marks)

abbrev pub finish : ℕ → List ℕ → Option (ℕ × Layout) → Frozen
finish n marks none = Frozen.unbuilt
finish n marks (some (buckets, l)) = checked n buckets l (check_slots l.slots 0 n marks)

unfoldable pub defun_freeze : ℕ → DefunTable → Frozen
defun_freeze rounds t =
    let uniq = dedup t.bootstrap [] in
    finish (length uniq) t.marks
      (build rounds (first_buckets (length uniq)) uniq (replicate defun_table_cap none))
