-- ===== src/Parse/Jumps.antt =====
-- reference/shen-gc/zincvm.c: `resolve_jumps`.
use fx_ui.Base.{◌-◌, ◌%◌, ◌^◌, ◌≡◌, refl, true, false, arith, ltb, Bool, if◌then◌else◌, if-cases}
use fx_ui.Base.Int.{ℤ, pos, negsuc}
use fx_ui.Value.{Value, Instr, Code, Opcode, instr, stop, step}
use fx_ui.Machine.State.{to_int, signed_32}

-- `(int)operand.number`, and 0 where the operand is no number.
abbrev pub jump_target : Value → ℤ
jump_target (Value.number n) = to_int n
jump_target v = pos 0

-- Code is a tree here, so the pass that writes `jmp_target` in place returns the new code.
abbrev mutual
  pub resolve_instr : Instr → Instr
  resolve_instr (instr Opcode.jmp v c t) = instr Opcode.jmp v c (jump_target v)
  resolve_instr (instr Opcode.jmpf v c t) = instr Opcode.jmpf v c (jump_target v)
  resolve_instr (instr Opcode.access v c t) = instr Opcode.access v c (jump_target v)
  resolve_instr (instr Opcode.cur v c t) = instr Opcode.cur v (resolve_jumps c) t
  resolve_instr i = i

  pub resolve_jumps : Code → Code
  resolve_jumps stop = stop
  resolve_jumps (step i c) = step (resolve_instr i) (resolve_jumps c)

abbrev pub is_int : ℤ → Bool
is_int (pos n) = ltb n (2 ^ 31)
is_int (negsuc n) = ltb n (2 ^ 31)

-- The target that an operand names: its number, where that is an `int`, and else the conversion of
-- it; 0 for no number.
abbrev pub Target : Value → ℤ → Type 0
Target (Value.number z) t = t ≡ (if is_int z then z else to_int z)
Target v t = t ≡ pos 0

-- The jumps of the code and of the closures in it have the targets that their operands name.
abbrev mutual
  pub Resolved : Instr → Type 0
  Resolved (instr Opcode.jmp v c t) = Target v t
  Resolved (instr Opcode.jmpf v c t) = Target v t
  Resolved (instr Opcode.access v c t) = Target v t
  Resolved (instr Opcode.cur v c t) = AllResolved c
  Resolved i = Unit

  pub AllResolved : Code → Type 0
  AllResolved stop = Unit
  AllResolved (step i c) = Resolved i × AllResolved c

int_kept : (z : ℤ) → is_int z ≡ true → to_int z ≡ z
unfolding to_int signed_32
int_kept (pos n) h =
    let same : n % 2 ^ 32 ≡ n = ground arith in
    let test : ltb n (2 ^ 31) ≡ true = h in rw (same, test) refl
int_kept (negsuc n) h =
    let same : 2 ^ 32 - 1 - n % 2 ^ 32 ≡ 2 ^ 32 - 1 - n = ground arith in
    let test : ltb (2 ^ 32 - 1 - n) (2 ^ 31) ≡ false = ground arith in
    let back : 2 ^ 32 - 1 - (2 ^ 32 - 1 - n) ≡ n = ground arith in rw (same, test, back) refl

jump_target-Target : (v : Value) → Target v (jump_target v)
jump_target-Target (Value.number z) =
    if-cases (λ x. to_int z ≡ x) (is_int z) z (to_int z) (int_kept z) (λ e. refl)
jump_target-Target (Value.string s) = refl
jump_target-Target v = refl

resolve_jumps-AllResolved : (c : Code) → AllResolved (resolve_jumps c)
resolve_jumps-AllResolved stop = tt
resolve_jumps-AllResolved (step (instr Opcode.cur v c t) code) =
    (resolve_jumps-AllResolved c, resolve_jumps-AllResolved code)
resolve_jumps-AllResolved (step (instr Opcode.jmp v c t) code) =
    (jump_target-Target v, resolve_jumps-AllResolved code)
resolve_jumps-AllResolved (step (instr Opcode.jmpf v c t) code) =
    (jump_target-Target v, resolve_jumps-AllResolved code)
resolve_jumps-AllResolved (step (instr Opcode.access v c t) code) =
    (jump_target-Target v, resolve_jumps-AllResolved code)
resolve_jumps-AllResolved (step _ code) = (tt, resolve_jumps-AllResolved code)

resolve_jumps_twice : (c : Code) → resolve_jumps (resolve_jumps c) ≡ resolve_jumps c
resolve_jumps_twice stop = refl
resolve_jumps_twice (step (instr Opcode.cur v c t) code) =
    rw (resolve_jumps_twice c, resolve_jumps_twice code) refl
resolve_jumps_twice (step i code) = rw (resolve_jumps_twice code) refl

-- The code without its targets.
abbrev mutual
  pub bare_instr : Instr → Instr
  bare_instr (instr op v c t) = instr op v (bare c) (pos 0)

  pub bare : Code → Code
  bare stop = stop
  bare (step i c) = step (bare_instr i) (bare c)

bare-resolve_jumps : (c : Code) → bare (resolve_jumps c) ≡ bare c
bare-resolve_jumps stop = refl
bare-resolve_jumps (step (instr Opcode.cur v c t) code) =
    rw (bare-resolve_jumps c, bare-resolve_jumps code) refl
bare-resolve_jumps (step i code) = rw (bare-resolve_jumps code) refl

-- After the pass every jump and access of the code, and of the closures in it at any depth, has as
-- its target the number of its operand, where that is an `int`, the `int` that a larger number is
-- converted to, and 0 where the operand is no number; nothing but the targets is changed, and a
-- second pass changes nothing.
pub resolve_jumps_lem :
    (c : Code)
    → AllResolved (resolve_jumps c)
      × (bare (resolve_jumps c) ≡ bare c)
      × (resolve_jumps (resolve_jumps c) ≡ resolve_jumps c)
resolve_jumps_lem c = (resolve_jumps-AllResolved c, bare-resolve_jumps c, resolve_jumps_twice c)
