-- ===== src/Gc/Roots/Laws.antt =====
-- reference/shen-gc/gc.c: the shadow stack is a stack, and unwinding to a watermark restores it.
use fx_ui.Base.{
  ℕ, zero, suc, ◌+◌, ◌-◌, ◌≤◌, ◌<◌, ◌≡◌, refl, ap, ◌∙◌, Bool, true, false, Option, some, List, [],
  ◌∷◌, arith, leb, ◌==◌, ◌>>=◌, Holds, bind-Holds, Holds-weaken, Holds-at, if-cases,
}
use fx_ui.Gc.Queue.{update}
use fx_ui.Gc.Roots.{
  Root, Shadow, grown, shadow_stack_grow, write_root, push_root, gc_root_pop, gc_root_pop_to,
  gc_root_watermark,
}

-- The first `n` cells, the last one in front.
abbrev pub first_cells : (ℕ → Root) → ℕ → List Root
first_cells cells zero = []
first_cells cells (suc n) = cells n ∷ first_cells cells n

-- The live roots, the newest in front.
abbrev pub roots : Shadow → List Root
roots s = first_cells s.cells s.len

abbrev pub IsInside : Shadow → Type 0
IsInside s = s.len ≤ s.cap

-- What code between a watermark and an unwinding does; a push has the answer of `realloc`.
pub data Act : Type 0 where
  push : Bool → Root → Act
  pop : Act

abbrev pub act : Act → Shadow → Option Shadow
act (push grows r) s = push_root grows s r
act pop s = some (gc_root_pop s)

abbrev pub perform : List Act → Shadow → Option Shadow
perform [] s = some s
perform (a ∷ acts) s = do t ← act a s; perform acts t

-- With `n` roots, the acts pop none of the first `w`.
abbrev pub Above : ℕ → ℕ → List Act → Type 0
Above w n [] = Unit
Above w n (push grows r ∷ acts) = Above w (n + 1) acts
Above w n (pop ∷ acts) = (w < n) × Above w (n - 1) acts

first_cells-update :
    (cells : ℕ → Root) (i n : ℕ) (r : Root)
    → n ≤ i
    → first_cells (update cells i r) n ≡ first_cells cells n
first_cells-update cells i zero r h = refl
first_cells-update cells i (suc n) r h =
    let other : (i == n) ≡ false = ground arith in
    rw (other, first_cells-update cells i n r (omega arith)) refl

-- A good outcome of a push of `r`.
abbrev Pushed : Shadow → Root → Shadow → Type 0
Pushed s r t =
    (t.len ≡ s.len + 1)
    × IsInside t
    × ((w : ℕ) → w ≤ s.len → first_cells t.cells w ≡ first_cells s.cells w)
    × (t.cells s.len ≡ r)

write_root-Pushed :
    (s : Shadow) (r : Root) (cap : ℕ)
    → s.len < cap
    → Pushed s r (write_root (record s { cap = cap }) r)
write_root-Pushed s r cap h =
    let same : (s.len == s.len) ≡ true = ground arith in
    (refl, omega arith, λ w le. first_cells-update s.cells s.len w r le, rw same refl)

grow-Pushed :
    (grows : Bool) (s : Shadow) (r : Root)
    → IsInside s
    → s.cap ≤ s.len
    → Holds (Pushed s r) (shadow_stack_grow grows s >>= λ t. some (write_root t r))
unfolding shadow_stack_grow
grow-Pushed true s r h full = write_root-Pushed s r (grown s.cap) (ground arith)
grow-Pushed false s r h full = tt

push_root-Pushed :
    (grows : Bool) (s : Shadow) (r : Root) → IsInside s → Holds (Pushed s r) (push_root grows s r)
unfolding push_root
push_root-Pushed grows s r h =
    if-cases (Holds (Pushed s r)) (leb s.cap s.len) _ _
      (λ e. grow-Pushed grows s r h (ground arith))
      (λ e. write_root-Pushed s r s.cap (ground arith))

-- A push puts the root on top of the live roots, within the capacity, and a pop takes it off; the
-- only other end of a push is the exit when no memory is found.
pub push_root_lem :
    (grows : Bool) (s t : Shadow) (r : Root)
    → IsInside s
    → push_root grows s r ≡ some t
    → (roots t ≡ r ∷ roots s) × IsInside t × (roots (gc_root_pop t) ≡ roots s)
unfolding gc_root_pop
push_root_lem grows s t r h e =
    let pushed = rw e at (push_root-Pushed grows s r h) in
    let more = pushed.0 in
    let long : t.len ≡ suc s.len = omega (arith, more) in
    let short : t.len - 1 ≡ s.len = omega (arith, more) in
    let below = pushed.2 s.len (omega arith) in
    (
      ap (first_cells t.cells) long ∙ rw (pushed.3, below) refl,
      pushed.1,
      ap (first_cells t.cells) short ∙ below,
    )

-- The first `w` roots are as they were, and there are as many.
abbrev Kept : ℕ → Shadow → Shadow → Type 0
Kept w s t = (first_cells t.cells w ≡ first_cells s.cells w) × IsInside t × (w ≤ t.len)

act-Kept :
    (w : ℕ) (a : Act) (s t : Shadow) (acts : List Act)
    → IsInside s
    → w ≤ s.len
    → Above w s.len (a ∷ acts)
    → act a s ≡ some t
    → Kept w s t × Above w t.len acts
unfolding gc_root_pop
act-Kept w (push grows r) s t acts h le above e =
    let pushed = rw e at (push_root-Pushed grows s r h) in
    let more = pushed.0 in ((pushed.2 w le, pushed.1, omega (arith, more)), rw more above)
act-Kept w pop s t acts h le above e =
    Holds-at (λ t. Kept w s t × Above w t.len acts) (some (gc_root_pop s)) t e
      ((refl, omega arith, (let enough = above.0 in omega arith)), above.1)

perform-Kept :
    (w : ℕ) (acts : List Act) (s : Shadow)
    → IsInside s
    → w ≤ s.len
    → Above w s.len acts
    → Holds (Kept w s) (perform acts s)
perform-Kept w [] s h le above = (refl, h, le)
perform-Kept w (a ∷ acts) s h le above = bind-Holds (Kept w s) (act a s) _ λ t e.
    let (kept, rest) = act-Kept w a s t acts h le above e in
    Holds-weaken (Kept w t) (Kept w s) (perform acts t) (perform-Kept w acts t kept.1 kept.2 rest)
      (λ u k. (k.0 ∙ kept.0, k.1, k.2))

-- From a watermark on, any pushes and pops that stay above it: unwinding to the watermark gives the
-- roots of that time back, in the array that has grown meanwhile.
pub gc_root_pop_to_lem :
    (acts : List Act) (s t : Shadow)
    → IsInside s
    → Above (gc_root_watermark s) s.len acts
    → perform acts s ≡ some t
    → (roots (gc_root_pop_to t (gc_root_watermark s)) ≡ roots s)
      × IsInside (gc_root_pop_to t (gc_root_watermark s))
unfolding gc_root_pop_to gc_root_watermark
gc_root_pop_to_lem acts s t h above e =
    let kept = rw e at (perform-Kept s.len acts s h (omega arith) above) in
    let inside = kept.1 in let many = kept.2 in (kept.0, omega arith)
