-- ===== src/Machine/Env.antt =====
-- reference/shen-gc/zincvm.c: `lookup_env`, `env_push` and `env_pop` as a stack indexed from the top,
-- and the arguments that a call collects.
use fx_ui.Base.{
  ℕ, zero, suc, ◌-◌, ◌<◌, ◌≡◌, refl, ap, ◌∙◌, true, false, some, arith, ltb, Bool-cases, inl, inr,
}
use fx_ui.Base.Int.{pos}
use fx_ui.Value.{Value, Values, empty, entry, size, fetch, append, size-append}
use fx_ui.Machine.State.{lookup_env, env_push, env_pop}

fetch-append_last :
    (env : Values) (v : Value) → fetch (append env (entry v empty)) (size env) ≡ some v
fetch-append_last empty v = refl
fetch-append_last (entry w env) v = fetch-append_last env v

fetch-append_left : (env ws : Values) (i : ℕ) → i < size env → fetch (append env ws) i ≡ fetch env i
fetch-append_left empty ws i h = elim h [ ]
fetch-append_left (entry v env) ws zero h = refl
fetch-append_left (entry v env) ws (suc i) h = fetch-append_left env ws i (omega arith)

lookup_env-top : (env : Values) (v : Value) → lookup_env (pos 0) (env_push env v) ≡ v
unfolding lookup_env env_push
lookup_env-top env v =
    let long : size (append env (entry v empty)) ≡ suc (size env) =
      size-append env (entry v empty) ∙ omega arith in
    let index : suc (size env) - 1 - 0 ≡ size env = omega arith in
    let test : ltb 0 (suc (size env)) ≡ true = ground arith in
    rw (long, test, index, fetch-append_last env v) refl

lookup_env-below :
    (env : Values) (v : Value) (k : ℕ)
    → lookup_env (pos (suc k)) (env_push env v) ≡ lookup_env (pos k) env
unfolding lookup_env env_push
lookup_env-below env v k =
    let long : size (append env (entry v empty)) ≡ suc (size env) =
      size-append env (entry v empty) ∙ omega arith in
    elim (Bool-cases (ltb k (size env))) [
      | inl e ↦
          let more : ltb (suc k) (suc (size env)) ≡ true = ground arith in
          let index : suc (size env) - 1 - suc k ≡ size env - 1 - k = omega arith in
          let left = fetch-append_left env (entry v empty) (size env - 1 - k) (ground arith) in
          rw (long, more, e, index, left) refl
      | inr e ↦
          let more : ltb (suc k) (suc (size env)) ≡ false = ground arith in rw (long, more, e) refl
    ]

env_pop-env_push : (env : Values) (v : Value) → env_pop (env_push env v) ≡ env
unfolding env_pop env_push
env_pop-env_push empty v = refl
env_pop-env_push (entry w empty) v = refl
env_pop-env_push (entry w (entry x env)) v = ap (entry w) (env_pop-env_push (entry x env) v)

-- A pushed entry has index 0, the entries before it move up by one, also those out of range, and
-- popping takes the entry off again.
pub env_push_lem :
    (env : Values) (v : Value)
    → (lookup_env (pos 0) (env_push env v) ≡ v)
      × ((k : ℕ) → lookup_env (pos (suc k)) (env_push env v) ≡ lookup_env (pos k) env)
      × (env_pop (env_push env v) ≡ env)
env_push_lem env v = (lookup_env-top env v, lookup_env-below env v, env_pop-env_push env v)
