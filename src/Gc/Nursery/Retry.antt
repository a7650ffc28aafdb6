-- ===== src/Gc/Nursery/Retry.antt =====
-- reference/shen-gc/gc.c: the objects that the nursery gives.
use fx_ui.Base.{
  ℕ, suc, ◌+◌, ◌-◌, ◌*◌, ◌/◌, ◌%◌, ◌^◌, ◌≤◌, ◌<◌, ◌≡◌, ◌⊎◌, refl, sym, ◌∙◌, Bool, true, false,
  arith, leb,
}
use fx_ui.Gc.Pages.{pagebytes}
use fx_ui.Gc.Alloc.{wordbytes, make_header, write}
use fx_ui.Gc.Alloc.Header.{make_header_lem}
use fx_ui.Gc.Alloc.Laws.{at_written, before_written, before_cleared, at_cleared}
use fx_ui.Gc.Alloc.Given.{IsObject}
use fx_ui.Gc.Nursery.{Space, free_bytes, straddles, skip_page, bump, Tried, nursery_retry}

-- The cursor is at a word from `base` on, and before the end, which is the end of a page.
pub record IsNursery (base : ℕ) (s : Space) : Type 0 where
  pub from : base ≤ s.cur
  pub words : s.cur % wordbytes ≡ 0
  pub inside : s.cur ≤ s.limit
  pub pages : s.limit % pagebytes ≡ 0
  pub address : s.limit < 2 ^ 64

pub free_bytes-eq : {base : ℕ} (s : Space) → IsNursery base s → free_bytes s ≡ s.limit - s.cur
free_bytes-eq s n = omega (arith, n.inside, n.address)

-- The object stands in the nursery, which starts at `base`, on one page.
pub record Bumped (base words ty : ℕ) (p : ℕ) (s : Space) : Type 0 where
  pub nursery : IsNursery base s
  pub made : IsObject s.arena.mem p words ty
  pub above : base ≤ (p - 1) * wordbytes
  pub below : p * wordbytes + (words - 1) * wordbytes ≤ s.limit
  pub one_page :
      (p - 1) * wordbytes / pagebytes ≡ (p * wordbytes + (words - 1) * wordbytes - 1) / pagebytes

module _ (words ty : ℕ) (one : 1 ≤ words) (small : words * wordbytes ≤ pagebytes)
    (kinds : ty < 2 ^ 20) {base : ℕ} (s : Space) (n : IsNursery base s) where
  bumped_header : (bump words ty s).arena.mem (s.cur / wordbytes) ≡ make_header words ty
  unfolding bump
  bumped_header =
      before_cleared (write s.arena.mem (s.cur / wordbytes) (make_header words ty))
        (s.cur / wordbytes + 1) (words - 1) (s.cur / wordbytes) (omega arith)
      ∙ at_written s.arena.mem (s.cur / wordbytes) (make_header words ty)

  -- What stands before the cursor is left as it is.
  pub bumped_before :
      (x : ℕ) → x * wordbytes < s.cur → (bump words ty s).arena.mem x ≡ s.arena.mem x
  unfolding bump
  bumped_before x h =
      before_cleared (write s.arena.mem (s.cur / wordbytes) (make_header words ty))
        (s.cur / wordbytes + 1) (words - 1) x (omega (arith, n.words))
      ∙ before_written s.arena.mem (s.cur / wordbytes) (make_header words ty) x
          (omega (arith, n.words))

  bumped_body :
      (i : ℕ) → i + 1 < words → (bump words ty s).arena.mem (s.cur / wordbytes + 1 + i) ≡ 0
  unfolding bump
  bumped_body i h =
      at_cleared (write s.arena.mem (s.cur / wordbytes) (make_header words ty))
        (s.cur / wordbytes + 1) (words - 1) i (omega arith)

  bump-IsNursery : words * wordbytes ≤ s.limit - s.cur → IsNursery base (bump words ty s)
  unfolding bump
  bump-IsNursery fits = record {
    from = omega (arith, n.from);
    words = omega (arith, n.words);
    inside = omega (arith, n.inside, fits, one);
    pages = n.pages;
    address = n.address;
  }

  same_limit : (bump words ty s).limit ≡ s.limit
  unfolding bump
  same_limit = refl

  on_page :
      straddles s (words * wordbytes) ≡ false
      → words * wordbytes ≤ s.limit - s.cur
      → (s.cur / wordbytes + 1 - 1) * wordbytes / pagebytes
        ≡ ((s.cur / wordbytes + 1) * wordbytes + (words - 1) * wordbytes - 1) / pagebytes
  on_page whole fits =
      let first : (s.cur / wordbytes + 1 - 1) * wordbytes ≡ s.cur = omega (arith, n.words) in
      let last : (s.cur / wordbytes + 1) * wordbytes + (words - 1) * wordbytes - 1
          ≡ s.cur + words * wordbytes - 1 =
        omega (arith, n.words, one) in
      let below : s.cur < s.limit = omega (arith, fits, one) in
      let page : (s.cur + words * wordbytes - 1) / pagebytes ≡ s.cur / pagebytes = ground arith in
      rw (first, last) (sym page)

  pub bump-Bumped :
      straddles s (words * wordbytes) ≡ false
      → words * wordbytes ≤ s.limit - s.cur
      → Bumped base words ty (s.cur / wordbytes + 1) (bump words ty s)
  bump-Bumped whole fits =
      let (live, size, kind) = make_header_lem words ty (omega arith) kinds in
      let back : s.cur / wordbytes + 1 - 1 ≡ s.cur / wordbytes = omega arith in
      record {
        nursery = bump-IsNursery fits;
        made = record {
          behind = omega arith;
          live = rw (back, bumped_header) live;
          size = rw (back, bumped_header) size;
          kind = rw (back, bumped_header) kind;
          zeroed = bumped_body;
        };
        above = omega (arith, n.from, n.words);
        below = rw same_limit (omega (arith, n.words, n.inside, fits, one));
        one_page = on_page whole fits;
      }

pub skip_page-IsNursery :
    {base : ℕ} (s : Space) (total : ℕ)
    → IsNursery base s
    → straddles s total ≡ true
    → IsNursery base (skip_page s)
skip_page-IsNursery s total n h =
    let below : s.cur < s.limit = ground arith in
    record {
      from = omega (arith, n.from);
      words = omega arith;
      inside = omega (arith, below, n.pages);
      pages = n.pages;
      address = n.address;
    }

-- At the start of a page nothing of a page's size straddles.
pub at_page-whole :
    (s : Space) (total : ℕ)
    → s.cur % pagebytes ≡ 0
    → 1 ≤ total
    → total ≤ pagebytes
    → straddles s total ≡ false
at_page-whole s total h one small =
    let page : (s.cur + total - 1) / pagebytes ≡ s.cur / pagebytes = omega (arith, h) in
    ground arith

-- A round of the search that finds room.
pub retry-fits :
    (collect_nursery : Space → Space) (rounds words ty : ℕ) (tried : Bool) {base : ℕ} (s : Space)
    → IsNursery base s
    → straddles s (words * wordbytes) ≡ false
    → words * wordbytes ≤ s.limit - s.cur
    → nursery_retry collect_nursery (suc rounds) words ty tried s
      ≡ Tried.object (s.cur / wordbytes + 1) (bump words ty s)
unfolding nursery_retry
retry-fits collect_nursery rounds words ty tried s n whole fits =
    let r = free_bytes-eq s n in
    let test : leb (words * wordbytes) (free_bytes s) ≡ true = ground (arith, r) in
    rw (whole, test) refl

pub skipped_at_page : (s : Space) → (skip_page s).cur % pagebytes ≡ 0
skipped_at_page s = omega arith

module _ (collect_nursery : Space → Space) (base words ty : ℕ) where
  -- The last scavenge left `s`, or a page was skipped since.
  abbrev pub Scavenged : Space → Type 0
  Scavenged s = (x : Space) × ((s ≡ collect_nursery x) ⊎ (s ≡ skip_page (collect_nursery x)))

  -- An object, or after a scavenge too little room: what is left would hold no such object.
  abbrev pub Got : Tried → Type 0
  Got (Tried.object p s) = Bumped base words ty p s
  Got (Tried.full s) =
      IsNursery base s
      × (s.limit - s.cur < words * wordbytes)
      × (straddles s (words * wordbytes) ≡ false)
      × Scavenged s
  Got Tried.endless = ⊥

module _ (collect_nursery : Space → Space) (base words ty : ℕ) (one : 1 ≤ words)
    (small : words * wordbytes ≤ pagebytes) (kinds : ty < 2 ^ 20) where
  abbrev retry : ℕ → Bool → Space → Tried
  retry rounds tried s = nursery_retry collect_nursery rounds words ty tried s
