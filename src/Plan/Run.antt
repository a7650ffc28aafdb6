-- ===== src/Plan/Run.antt =====
-- reference/shen-gc/zincvm.c: `run_pipeline` and `run_program`, in the process that forks.
--
-- The kernel's answers are parameters. A run gives its exit code and the trace of its calls. What a
-- child does between `fork` and its end shows only in the status that `waitpid` gives, and what the
-- plan's here-documents hold is not in the model: `wire_pipe_tmpfds` succeeds or not.
pub mod Resources
pub mod Lists
use fx_ui.Base.{
  ℕ, zero, suc, ◌+◌, ◌-◌, Bool, true, false, ◌&&◌, not, Option, none, some, List, [], ◌∷◌, ◌++◌,
  ◌==◌, if◌then◌else◌,
}
use fx_ui.Base.Bytes.{Bytes}
use fx_ui.Base.Int.{ℤ, pos, negsuc}
use fx_ui.Value.Equal.{long_eq}
use fx_ui.Plan.Decode.{
  RProg, no_chains, chain, RPipe, no_cmds, stage, RCmd, cmd, Sub, plain, nested, ChainOp,
}
use fx_ui.Plan.Decode.Fits.{cmd_count}

pub data Status : Type 0 where
  exited signalled : ℕ → Status

-- The calls that take or give back a resource; `released` is `close_pipe_tmpfds`.
pub data Event : Type 0 where
  opened closed forked killed waited : ℕ → Event
  released : Event

-- The answers during one pipeline: the descriptors of its pipes, the children of its stages, how
-- they end, and whether the here-documents are opened. The last two are the builtins that a
-- subshell runs in its own process.
pub record Kernel : Type 0 where
  pub pipe : ℕ → Option (ℕ × ℕ)
  pub fork : ℕ → Option ℕ
  pub waitpid : ℕ → Status
  pub wired : RPipe → Bool
  pub is_child_builtin : Bytes → Bool
  pub run_builtin : RCmd → ℤ

abbrev pub Run : Type 0
Run = ℤ × List Event

abbrev pub wait_status_code : Status → ℤ
wait_status_code (exited code) = pos code
wait_status_code (signalled signal) = pos (128 + signal)

abbrev pub has_sub : RCmd → Bool
has_sub (cmd argv redirs plain) = false
has_sub (cmd argv redirs (nested p)) = true

-- The commands of a plan that is decoded have a word or are subshells.
abbrev pub first_word : RCmd → Bytes
first_word (cmd [] redirs sub) = []
first_word (cmd (a ∷ argv) redirs sub) = a

abbrev pub opens : List (ℕ × ℕ) → List Event
opens [] = []
opens ((a, b) ∷ ps) = opened a ∷ opened b ∷ opens ps

abbrev pub closes : List (ℕ × ℕ) → List Event
closes [] = []
closes ((a, b) ∷ ps) = closed a ∷ closed b ∷ closes ps

-- The pipes that were opened, and whether a call failed.
abbrev pub add_pipe : ℕ × ℕ → List (ℕ × ℕ) × Bool → List (ℕ × ℕ) × Bool
add_pipe p (ps, failed) = (p ∷ ps, failed)

unfoldable pub open_pipes : Kernel → ℕ → ℕ → List (ℕ × ℕ) × Bool
open_pipes k i zero = ([], false)
open_pipes k i (suc n) = elim (k.pipe i) [
  | none ↦ ([], true)
  | some p ↦ add_pipe p (open_pipes k (i + 1) n)
]

abbrev pub add_pid : ℕ → List ℕ × Bool → List ℕ × Bool
add_pid pid (pids, failed) = (pid ∷ pids, failed)

-- The children of the stages from `i` on, and `fork_fail`.
unfoldable pub fork_stages : Kernel → ℕ → ℕ → List ℕ × Bool
fork_stages k i zero = ([], false)
fork_stages k i (suc n) = elim (k.fork i) [
  | none ↦ ([], true)
  | some pid ↦ add_pid pid (fork_stages k (i + 1) n)
]

abbrev pub forks : List ℕ → List Event
forks [] = []
forks (pid ∷ pids) = forked pid ∷ forks pids

abbrev pub kill_all : List ℕ → List Event
kill_all [] = []
kill_all (pid ∷ pids) = killed pid ∷ waited pid ∷ kill_all pids

abbrev pub wait_all : List ℕ → List Event
wait_all [] = []
wait_all (pid ∷ pids) = waited pid ∷ wait_all pids

-- The status of the last child; `code` is 0 before the loop.
abbrev pub last_code : Kernel → ℤ → List ℕ → ℤ
last_code k code [] = code
last_code k code (pid ∷ pids) = last_code k (wait_status_code (k.waitpid pid)) pids

abbrev pub minus_one : ℤ
minus_one = negsuc 0

-- The parent after the forks.
abbrev pub reap : Kernel → List ℕ × Bool → List Event → Run
reap k (pids, true) shut = (minus_one, forks pids ++ shut ++ kill_all pids)
reap k (pids, false) shut = (last_code k (pos 0) pids, forks pids ++ shut ++ wait_all pids)

abbrev pub with_pipes : Kernel → ℕ → List (ℕ × ℕ) × Bool → Run
with_pipes k n (ps, true) = (minus_one, opens ps ++ closes ps ++ released ∷ [])
with_pipes k n (ps, false) =
    let (code, trace) = reap k (fork_stages k 0 n) (closes ps ++ released ∷ []) in
    (code, opens ps ++ trace)

unfoldable pub run_stages : Kernel → RPipe → Run
run_stages k pp =
    if k.wired pp
    then with_pipes k (cmd_count pp) (open_pipes k 0 (cmd_count pp - 1))
    else (minus_one, released ∷ [])

abbrev pub subshell_child : Kernel → Option ℕ → Run
subshell_child k none = (minus_one, released ∷ [])
subshell_child k (some pid) =
    (wait_status_code (k.waitpid pid), forked pid ∷ released ∷ waited pid ∷ [])

unfoldable pub run_subshell : Kernel → RPipe → Run
run_subshell k pp = if k.wired pp then subshell_child k (k.fork 0) else (minus_one, released ∷ [])

unfoldable pub run_builtin_here : Kernel → RPipe → RCmd → Run
run_builtin_here k pp c =
    if k.wired pp then (k.run_builtin c, released ∷ []) else (minus_one, released ∷ [])

unfoldable pub run_pipeline : Kernel → RPipe → Bool → Run
run_pipeline k (stage c no_cmds) in_child =
    if has_sub c
    then run_subshell k (stage c no_cmds)
    else if in_child && k.is_child_builtin (first_word c)
    then run_builtin_here k (stage c no_cmds) c
    else run_stages k (stage c no_cmds)
run_pipeline k pp in_child = run_stages k pp

-- The tests on the operator, for every chain but the first.
abbrev pub skips : Bool → ChainOp → ℤ → Bool
skips first ChainOp.rop_seq last = false
skips first ChainOp.rop_and last = not first && not (long_eq last (pos 0))
skips first ChainOp.rop_or last = not first && long_eq last (pos 0)

-- `rest` is the loop on the chains that follow, by the code so far.
abbrev pub then_chains : Run → (ℤ → Run) → Run
then_chains (negsuc n, trace) rest = (minus_one, trace)
then_chains (pos n, trace) rest = let (code, more) = rest (pos n) in (code, trace ++ more)

-- `kernel i` answers during chain `i`.
unfoldable pub run_chains : (ℕ → Kernel) → Bool → ℕ → RProg → ℤ → Run
run_chains kernel in_child i no_chains last = (last, [])
run_chains kernel in_child i (chain op pipe p) last =
    let rest = run_chains kernel in_child (i + 1) p in
    let skipped = rest last in
    if skips (i == 0) op last
    then skipped
    else then_chains (run_pipeline (kernel i) pipe in_child) rest

unfoldable pub run_program : (ℕ → Kernel) → Bool → RProg → Run
run_program kernel in_child p = run_chains kernel in_child 0 p (pos 0)
