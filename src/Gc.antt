-- ===== src/Gc.antt =====
-- reference/shen-gc/gc.c: the collector's remembered sets, its page queue, its page allocation and
-- its shadow stack.
pub mod Dirty
pub mod Queue
pub mod Roots
pub mod Pages
pub mod Alloc
pub mod Nursery
