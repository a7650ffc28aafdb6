-- ===== src/Plan/Run/Resources.antt =====
-- reference/shen-gc/zincvm.c: `run_program` gives back what it takes.
use mathlib.Core.List.{append-nil}
use fx_ui.Base.{
  ℕ, ◌+◌, ◌-◌, ◌≡◌, refl, ap, Bool, true, false, ◌&&◌, Option, none, some, List, [], ◌∷◌, ◌++◌,
  ◌==◌, Bool-cases, inl, inr,
}
use fx_ui.Base.Int.{ℤ, pos, negsuc}
use fx_ui.Plan.Decode.{RProg, no_chains, chain, RPipe, no_cmds, stage, RCmd}
use fx_ui.Plan.Decode.Fits.{cmd_count}
use fx_ui.Plan.Run.{
  Event, Kernel, Run, has_sub, first_word, opens, closes, open_pipes, fork_stages, forks, kill_all,
  wait_all, reap, with_pipes, run_stages, subshell_child, run_subshell, run_builtin_here,
  run_pipeline, skips, then_chains, run_chains, run_program,
}

-- The pids or descriptors of one kind of call, in the order of the calls.
abbrev keep : Option ℕ → List ℕ → List ℕ
keep none ns = ns
keep (some n) ns = n ∷ ns

abbrev pub pick : (Event → Option ℕ) → List Event → List ℕ
pick f [] = []
pick f (e ∷ es) = keep (f e) (pick f es)

abbrev pub is_open : Event → Option ℕ
is_open (Event.opened fd) = some fd
is_open _ = none

abbrev pub is_close : Event → Option ℕ
is_close (Event.closed fd) = some fd
is_close _ = none

abbrev pub is_fork : Event → Option ℕ
is_fork (Event.forked pid) = some pid
is_fork _ = none

abbrev pub is_wait : Event → Option ℕ
is_wait (Event.waited pid) = some pid
is_wait _ = none

-- Every descriptor that is opened is closed, every child that is forked is waited for, in order.
abbrev pub Balanced : List Event → Type 0
Balanced t = (pick is_open t ≡ pick is_close t) × (pick is_fork t ≡ pick is_wait t)

keep-append : (o : Option ℕ) (xs ys : List ℕ) → keep o (xs ++ ys) ≡ keep o xs ++ ys
keep-append none xs ys = refl
keep-append (some n) xs ys = refl

pick-append : (f : Event → Option ℕ) (s t : List Event) → pick f (s ++ t) ≡ pick f s ++ pick f t
pick-append f [] t = refl
pick-append f (e ∷ es) t = rw (pick-append f es t) (keep-append (f e) (pick f es) (pick f t))

Balanced-append : (s t : List Event) → Balanced s → Balanced t → Balanced (s ++ t)
Balanced-append s t h k = (
  rw (pick-append is_open s t, pick-append is_close s t, h.0, k.0) refl,
  rw (pick-append is_fork s t, pick-append is_wait s t, h.1, k.1) refl,
)

open-opens : (ps : List (ℕ × ℕ)) → pick is_open (opens ps) ≡ pick is_close (closes ps)
open-opens [] = refl
open-opens ((a, b) ∷ ps) = rw (open-opens ps) refl

close-opens : (ps : List (ℕ × ℕ)) → pick is_close (opens ps) ≡ []
close-opens [] = refl
close-opens ((a, b) ∷ ps) = close-opens ps

fork-opens : (ps : List (ℕ × ℕ)) → (pick is_fork (opens ps) ≡ []) × (pick is_wait (opens ps) ≡ [])
fork-opens [] = (refl, refl)
fork-opens ((a, b) ∷ ps) = fork-opens ps

others-closes :
    (ps : List (ℕ × ℕ))
    → (pick is_open (closes ps) ≡ [])
      × (pick is_fork (closes ps) ≡ [])
      × (pick is_wait (closes ps) ≡ [])
others-closes [] = (refl, refl, refl)
others-closes ((a, b) ∷ ps) = others-closes ps

fork-forks : (pids : List ℕ) → pick is_fork (forks pids) ≡ pids
fork-forks [] = refl
fork-forks (p ∷ pids) = ap (λ l. p ∷ l) (fork-forks pids)

others-forks :
    (pids : List ℕ)
    → (pick is_open (forks pids) ≡ [])
      × (pick is_close (forks pids) ≡ [])
      × (pick is_wait (forks pids) ≡ [])
others-forks [] = (refl, refl, refl)
others-forks (p ∷ pids) = others-forks pids

-- How a child is reaped: killed first or not.
abbrev Reaps : (List ℕ → List Event) → Type 0
Reaps f =
    (pids : List ℕ)
    → (pick is_open (f pids) ≡ [])
      × (pick is_close (f pids) ≡ [])
      × (pick is_fork (f pids) ≡ [])
      × (pick is_wait (f pids) ≡ pids)

wait_all-Reaps : Reaps wait_all
wait_all-Reaps [] = (refl, refl, refl, refl)
wait_all-Reaps (p ∷ pids) = let h = wait_all-Reaps pids in (h.0, h.1, h.2, ap (λ l. p ∷ l) h.3)

kill_all-Reaps : Reaps kill_all
kill_all-Reaps [] = (refl, refl, refl, refl)
kill_all-Reaps (p ∷ pids) = let h = kill_all-Reaps pids in (h.0, h.1, h.2, ap (λ l. p ∷ l) h.3)

stages-Balanced :
    (ps : List (ℕ × ℕ)) (pids : List ℕ) (f : List ℕ → List Event)
    → Reaps f
    → Balanced (opens ps ++ (forks pids ++ (closes ps ++ Event.released ∷ []) ++ f pids))
stages-Balanced ps pids f h =
    let r = h pids in
    let c = others-closes ps in
    let o = fork-opens ps in
    let p = others-forks pids in
    (
      simp (pick-append, open-opens, c.0, p.0, r.0, p.1, r.1, close-opens, append-nil),
      simp (pick-append, o.0, o.1, c.1, c.2, p.2, r.2, r.3, fork-forks, append-nil),
    )

reap-Balanced :
    (k : Kernel) (ps : List (ℕ × ℕ)) (r : List ℕ × Bool)
    → Balanced (opens ps ++ (reap k r (closes ps ++ Event.released ∷ [])).1)
reap-Balanced k ps (pids, true) = stages-Balanced ps pids kill_all kill_all-Reaps
reap-Balanced k ps (pids, false) = stages-Balanced ps pids wait_all wait_all-Reaps

with_pipes-Balanced :
    (k : Kernel) (n : ℕ) (ps : List (ℕ × ℕ)) (failed : Bool)
    → Balanced (with_pipes k n (ps, failed)).1
with_pipes-Balanced k n ps true =
    let c = others-closes ps in
    let o = fork-opens ps in
    (
      simp (pick-append, open-opens, c.0, close-opens, append-nil),
      simp (pick-append, o.0, o.1, c.1, c.2),
    )
with_pipes-Balanced k n ps false = reap-Balanced k ps (fork_stages k 0 n)

run_stages-Balanced : (k : Kernel) (pp : RPipe) → Balanced (run_stages k pp).1
unfolding run_stages
run_stages-Balanced k pp = elim (Bool-cases (k.wired pp)) [
  | inl e ↦ rw e (
      with_pipes-Balanced k (cmd_count pp) (open_pipes k 0 (cmd_count pp - 1)).0
        (open_pipes k 0 (cmd_count pp - 1)).1)
  | inr e ↦ rw e (refl, refl)
]

subshell_child-Balanced : (k : Kernel) (o : Option ℕ) → Balanced (subshell_child k o).1
subshell_child-Balanced k none = (refl, refl)
subshell_child-Balanced k (some pid) = (refl, refl)

run_subshell-Balanced : (k : Kernel) (pp : RPipe) → Balanced (run_subshell k pp).1
unfolding run_subshell
run_subshell-Balanced k pp = elim (Bool-cases (k.wired pp)) [
  | inl e ↦ rw e (subshell_child-Balanced k (k.fork 0))
  | inr e ↦ rw e (refl, refl)
]

run_builtin_here-Balanced :
    (k : Kernel) (pp : RPipe) (c : RCmd) → Balanced (run_builtin_here k pp c).1
unfolding run_builtin_here
run_builtin_here-Balanced k pp c = elim (Bool-cases (k.wired pp)) [
  | inl e ↦ rw e (refl, refl)
  | inr e ↦ rw e (refl, refl)
]

run_pipeline-Balanced :
    (k : Kernel) (pp : RPipe) (in_child : Bool) → Balanced (run_pipeline k pp in_child).1
unfolding run_pipeline
run_pipeline-Balanced k no_cmds in_child = run_stages-Balanced k no_cmds
run_pipeline-Balanced k (stage c (stage d p)) in_child = run_stages-Balanced k (stage c (stage d p))
run_pipeline-Balanced k (stage c no_cmds) in_child = elim (Bool-cases (has_sub c)) [
  | inl e ↦ rw e (run_subshell-Balanced k (stage c no_cmds))
  | inr e ↦ rw e (elim (Bool-cases (in_child && k.is_child_builtin (first_word c))) [
    | inl b ↦ rw b (run_builtin_here-Balanced k (stage c no_cmds) c)
    | inr b ↦ rw b (run_stages-Balanced k (stage c no_cmds))
  ])
]

then_chains-Balanced :
    (r : Run) (rest : ℤ → Run)
    → Balanced r.1
    → ((z : ℤ) → Balanced (rest z).1)
    → Balanced (then_chains r rest).1
then_chains-Balanced (negsuc n, trace) rest h k = h
then_chains-Balanced (pos n, trace) rest h k = Balanced-append trace (rest (pos n)).1 h (k (pos n))

run_chains-Balanced :
    (kernel : ℕ → Kernel) (in_child : Bool) (i : ℕ) (p : RProg) (last : ℤ)
    → Balanced (run_chains kernel in_child i p last).1
unfolding run_chains
run_chains-Balanced kernel in_child i no_chains last = (refl, refl)
run_chains-Balanced kernel in_child i (chain op pipe p) last =
    elim (Bool-cases (skips (i == 0) op last)) [
      | inl e ↦ rw e (run_chains-Balanced kernel in_child (i + 1) p last)
      | inr e ↦ rw e (
          then_chains-Balanced (run_pipeline (kernel i) pipe in_child) _
            (run_pipeline-Balanced (kernel i) pipe in_child)
            (λ z. run_chains-Balanced kernel in_child (i + 1) p z))
    ]

-- Whatever the kernel answers, also when a pipe or a fork fails: a program closes every pipe
-- descriptor it opens, and waits for every child it forks, each once and in the order it made them.
pub run_program-Balanced :
    (kernel : ℕ → Kernel) (in_child : Bool) (p : RProg) → Balanced (run_program kernel in_child p).1
unfolding run_program
run_program-Balanced kernel in_child p = run_chains-Balanced kernel in_child 0 p (pos 0)
