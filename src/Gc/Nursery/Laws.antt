-- ===== src/Gc/Nursery/Laws.antt =====
-- reference/shen-gc/gc.c: `gc_alloc` of a small object, where the nursery has room.
use fx_ui.Base.{ℕ, ◌-◌, ◌*◌, ◌^◌, ◌≤◌, ◌<◌, ◌≡◌}
use fx_ui.Gc.Pages.{pagebytes}
use fx_ui.Gc.Alloc.{wordbytes}
use fx_ui.Gc.Nursery.{Space, nursery_scavenge_free_lowater, Tried}
use fx_ui.Gc.Nursery.Retry.{IsNursery, Bumped}

-- A search that needs no scavenge.
module _ (collect_nursery : Space → Space) (words ty : ℕ) (one : 1 ≤ words)
    (small : words * wordbytes ≤ pagebytes) (kinds : ty < 2 ^ 20) {base : ℕ} (s : Space)
    (n : IsNursery base s) (room : nursery_scavenge_free_lowater < s.limit - s.cur) where
  Bumps : Tried → Type 0
  Bumps t =
      (p : ℕ) × (s' : Space) × (t ≡ Tried.object p s')
      × Bumped base words ty p s'
      × ((x : ℕ) → x * wordbytes < s.cur → s'.arena.mem x ≡ s.arena.mem x)
