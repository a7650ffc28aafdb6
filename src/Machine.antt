-- ===== src/Machine.antt =====
-- reference/shen-gc/zincvm.c: `vm_exec_env`, the ZINC machine.
--
-- `State` has the variables of its loop, `Ops` and `Calls` the cases of its switch, and `Loop` the
-- loop itself. What the machine takes from elsewhere is the record `Host`.
pub mod State
pub mod Ops
pub mod Calls
pub mod Loop
pub mod Bounds
pub mod Locality
pub mod Env
pub mod Collect
