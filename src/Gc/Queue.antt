-- ===== src/Gc/Queue.antt =====
-- reference/shen-gc/gc.c: the Cheney queue of pages, `queue`, its head in `cheney_drain`, and
-- `queue_reset`.
pub mod Laws
use fx_ui.Base.{ℕ, Bool, true, false, ◌&&◌, leb, ◌==◌, if◌then◌else◌}

-- `gc_link` and `page_queued` by page; a page is not 0.
pub record Queue : Type 0 where
  pub head : ℕ
  pub tail : ℕ
  pub link : ℕ → ℕ
  pub queued : ℕ → Bool

abbrev pub update : {A : Type 0} → (ℕ → A) → ℕ → A → ℕ → A
update f i v j = if i == j then v else f j

abbrev pub behind_tail : Queue → ℕ → Queue
behind_tail q page = record q {
  link = update (update q.link q.tail page) page 0;
  tail = page;
  queued = update q.queued page true;
}

abbrev pub alone : Queue → ℕ → Queue
alone q page = record q {
  head = page;
  link = update q.link page 0;
  tail = page;
  queued = update q.queued page true;
}

unfoldable pub queue : Queue → ℕ → Queue
queue q page = if q.queued page then q else if q.head == 0 then alone q page else behind_tail q page

-- `queue_head = gc_link[queue_head]`
unfoldable pub unqueue : Queue → Queue
unqueue q = record q { head = q.link q.head }

-- The flags of the heap's pages are cleared.
unfoldable pub queue_reset : (firstheappage lastheappage : ℕ) → Queue → Queue
queue_reset firstheappage lastheappage q = record q {
  head = 0;
  tail = 0;
  queued = λ p. if leb firstheappage p && leb p lastheappage then false else q.queued p;
}
