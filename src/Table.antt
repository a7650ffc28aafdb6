-- ===== src/Table.antt =====
-- reference/shen-gc/zincvm.c: the two global tables.
pub mod Hash
pub mod Entry
pub mod ValuesTable
pub mod DefunTable
pub mod Freeze
