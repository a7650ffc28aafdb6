-- ===== src/Gc/Queue/Laws.antt =====
-- reference/shen-gc/gc.c: the links are a first-in first-out queue.
use fx_ui.Base.{
  ℕ, ◌≡◌, ◌≢◌, refl, sym, ◌∙◌, Bool, true, false, List, [], ◌∷◌, ◌++◌, arith, ◌==◌, if◌then◌else◌,
  All, Bool-cases, if-cases, inl, inr,
}
use fx_ui.Gc.Dirty.{mem}
use fx_ui.Gc.Dirty.Laws.{Distinct, Distinct-append}
use fx_ui.Gc.Queue.{Queue, update, behind_tail, alone, queue, unqueue}

-- `p` and the pages of `ps` are linked in that order, up to `tail`.
abbrev pub Linked : (ℕ → ℕ) → ℕ → List ℕ → ℕ → Type 0
Linked link p [] tail = (link p ≡ 0) × (tail ≡ p)
Linked link p (r ∷ ps) tail = (link p ≡ r) × Linked link r ps tail

abbrev pub Chain : Queue → List ℕ → Type 0
Chain q [] = q.head ≡ 0
Chain q (p ∷ ps) = (q.head ≡ p) × Linked q.link p ps q.tail

-- The queue holds these pages, the first one in front; each is flagged, so none is there twice.
abbrev pub Represents : Queue → List ℕ → Type 0
Represents q ps = Chain q ps × Distinct ps × All (λ p. (p ≢ 0) × (q.queued p ≡ true)) ps

update_self : {A : Type 0} (f : ℕ → A) (i : ℕ) (v : A) → update f i v i ≡ v
update_self f i v = let same : (i == i) ≡ true = ground arith in rw same refl

update_ne : {A : Type 0} (f : ℕ → A) (i j : ℕ) (v : A) → i ≢ j → update f i v j ≡ f j
update_ne f i j v n = let differ : (i == j) ≡ false = ground arith in rw differ refl

mem-fresh :
    (queued : ℕ → Bool) (page : ℕ) (ps : List ℕ)
    → queued page ≡ false
    → All (λ p. (p ≢ 0) × (queued p ≡ true)) ps
    → mem ps page ≡ false
mem-fresh queued page [] n h = refl
mem-fresh queued page (p ∷ ps) n h = elim (Bool-cases (p == page)) [
  | inr e ↦ rw e (mem-fresh queued page ps n h.1)
  | inl e ↦ let same : p ≡ page = ground arith in let yes = h.0.1 in cc
]

tail-mem :
    (link : ℕ → ℕ) (p : ℕ) (ps : List ℕ) (tail : ℕ)
    → Linked link p ps tail
    → mem (p ∷ ps) tail ≡ true
tail-mem link p [] tail h =
    let same : (p == tail) ≡ true = (let e = h.1 in ground arith) in rw same refl
tail-mem link p (r ∷ ps) tail h =
    if-cases (λ b. b ≡ true) (p == tail) true (mem (r ∷ ps) tail) (λ _. refl)
      (λ _. tail-mem link r ps tail h.1)

mem-cons :
    (p : ℕ) (ps : List ℕ) (page : ℕ)
    → mem (p ∷ ps) page ≡ false
    → (page ≢ p) × (mem ps page ≡ false)
mem-cons p ps page h = elim (Bool-cases (p == page)) [
  | inl e ↦ cc (rw e at h)
  | inr e ↦ (ground arith, rw e at h)
]

mem-ne : (xs : List ℕ) (x y : ℕ) → mem xs x ≡ false → mem xs y ≡ true → x ≢ y
mem-ne xs x y absent present e = cc

Linked-append :
    (link : ℕ → ℕ) (p : ℕ) (ps : List ℕ) (tail page : ℕ)
    → Linked link p ps tail
    → Distinct (p ∷ ps)
    → mem (p ∷ ps) page ≡ false
    → Linked (update (update link tail page) page 0) p (ps ++ page ∷ []) page
Linked-append link p [] tail page h d n =
    let ne = (mem-cons p [] page n).0 in
    let here : update (update link tail page) page 0 p ≡ page =
      update_ne (update link tail page) page p 0 ne ∙ rw h.1 (update_self link p page) in
    (here, (update_self (update link tail page) page 0, refl))
Linked-append link p (r ∷ ps) tail page h d n =
    let (ne, rest) = mem-cons p (r ∷ ps) page n in
    let below = mem-ne (r ∷ ps) p tail d.0 (tail-mem link r ps tail h.1) in
    let here : update (update link tail page) page 0 p ≡ r =
      update_ne (update link tail page) page p 0 ne
      ∙ update_ne link tail p page (λ e. below (sym e))
      ∙ h.0 in
    (here, Linked-append link r ps tail page h.1 d.1 rest)

All-update :
    (queued : ℕ → Bool) (page : ℕ) (ps : List ℕ)
    → All (λ p. (p ≢ 0) × (queued p ≡ true)) ps
    → All (λ p. (p ≢ 0) × (update queued page true p ≡ true)) ps
All-update queued page [] h = tt
All-update queued page (p ∷ ps) h = (
  (h.0.0, if-cases (λ b. b ≡ true) (page == p) true (queued p) (λ _. refl) (λ _. h.0.1)),
  All-update queued page ps h.1,
)

All-append : (P : ℕ → Type 0) (ps : List ℕ) (page : ℕ) → All P ps → P page → All P (ps ++ page ∷ [])
All-append P [] page h p = (p, tt)
All-append P (q ∷ ps) page h p = (h.0, All-append P ps page h.1 p)

Chain-queue :
    (q : Queue) (page : ℕ) (ps : List ℕ)
    → Represents q ps
    → mem ps page ≡ false
    → Chain (if q.head == 0 then alone q page else behind_tail q page) (ps ++ page ∷ [])
Chain-queue q page [] h n =
    let zero_head = h.0 in
    let test : (q.head == 0) ≡ true = ground arith in
    simp test (refl, (update_self q.link page 0, refl))
Chain-queue q page (p ∷ ps) h n =
    let first = h.0.0 in
    let positive = h.2.0.0 in
    let test : (q.head == 0) ≡ false = ground arith in
    simp test (first, Linked-append q.link p ps q.tail page h.0.1 h.1 n)

queued-if :
    (q : Queue) (page : ℕ)
    → (if q.head == 0 then alone q page else behind_tail q page).queued ≡ update q.queued page true
queued-if q page =
    if-cases (λ r. r.queued ≡ update q.queued page true) (q.head == 0) (alone q page)
      (behind_tail q page) (λ _. refl) (λ _. refl)

queue-new :
    (q : Queue) (page : ℕ) (ps : List ℕ)
    → page ≢ 0
    → Represents q ps
    → q.queued page ≡ false
    → Represents (if q.head == 0 then alone q page else behind_tail q page) (ps ++ page ∷ [])
queue-new q page ps positive h n =
    let fresh = mem-fresh q.queued page ps n h.2 in
    (
      Chain-queue q page ps h fresh,
      Distinct-append ps page h.1 fresh,
      rw (queued-if q page) (
          All-append _ ps page (All-update q.queued page ps h.2)
            (positive, update_self q.queued page true)),
    )

-- On the pages that the queue holds, oldest first: a page that was queued since the reset leaves
-- the queue as it is, any other goes to the end.
pub queue_lem :
    (q : Queue) (page : ℕ) (ps : List ℕ)
    → page ≢ 0
    → Represents q ps
    → (q.queued page ≡ true → queue q page ≡ q)
      × (q.queued page ≡ false → Represents (queue q page) (ps ++ page ∷ []))
unfolding queue
queue_lem q page ps positive h = (
  λ e. simp e,
  λ e.
      if-cases (λ r. Represents r (ps ++ page ∷ [])) (q.queued page) q _ (λ f. cc)
        (λ _. queue-new q page ps positive h e),
)

Chain-unqueue : (q : Queue) (p : ℕ) (ps : List ℕ) → Chain q (p ∷ ps) → Chain (unqueue q) ps
unfolding unqueue
Chain-unqueue q p [] h = rw h.0 h.1.0
Chain-unqueue q p (r ∷ ps) h = (rw h.0 h.1.0, h.1.1)

-- The head of a queue that is not empty is its oldest page, and the drain takes that page off.
pub unqueue_lem :
    (q : Queue) (p : ℕ) (ps : List ℕ)
    → Represents q (p ∷ ps)
    → (q.head ≡ p) × Represents (unqueue q) ps
unfolding unqueue
unqueue_lem q p ps h = (h.0.0, (Chain-unqueue q p ps h.0, h.1.1, h.2.1))
