-- ===== src/Plan.antt =====
-- reference/shen-gc/zincvm.c: the plan of `exec-plan`, a shell program as the interpreter builds it.
--
-- `Tagged` reads the tagged lists, `Decode` has the plan and its decoder, `Run` the chains.
pub mod Tagged
pub mod Decode
pub mod Run
