-- ===== src/Parse.antt =====
-- reference/shen-gc/zincvm.c: the reader of csexp bytecode.
--
-- `Reader` has the text, its results and the atoms, `Body` the instruction lists, `Jumps` the pass
-- over parsed code, `Total` the fuel that is enough, `Encode` the written form, and `Decimal`,
-- `Atoms` and `RoundTrip` the proof that the written form is read back.
pub mod Reader
pub mod Body
pub mod Jumps
pub mod Total
pub mod Encode
pub mod Decimal
pub mod Atoms
pub mod RoundTrip
