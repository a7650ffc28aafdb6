-- ===== src/Lib.antt =====
-- The reference runtime of fx-ui: the Shen virtual machine in C under reference/shen-gc.
--
-- The Elm compiler writes csexp bytecode; the machine parses it, resolves its jumps, and runs it in
-- a ZINC loop over a value stack, an environment and a stack of frames. Two global tables hold
-- functions and values. The primitive `exec-plan` decodes a shell program, which the machine then
-- runs by forking. Values live in a copying collector with a nursery, a write barrier and a shadow
-- stack of precise roots.
--
-- Base: shared names, list and number lemmas, ℤ, C strings as lists of bytes.
-- Value (zinctypes.h): values, instructions and opcodes. `Value.Equal` is `deep_equal`,
--   `Value.Marshal` is `marshal_to_tagged` and `demarshal_from_tagged` (zincvm.c). A vector is an
--   address into a store, every other value a tree.
-- Table (zincvm.c): `Table.ValuesTable` is `value_set` and `value_get`, `Table.DefunTable` is
--   `defun_set`, `defun_get`, `defun_has` and `defun_is_defined`, `Table.Hash` the FNV-1a hashes on
--   32 bits, `Table.Freeze` is `defun_freeze`, which turns the list of bindings into a perfect hash.
-- Machine (zincvm.c): `vm_exec_env`. `Machine.State` is the state of the loop and its environment,
--   `Machine.Ops` and `Machine.Calls` the cases of the switch, `Machine.Loop` the loop. The
--   primitives, the catch frame and the globals are the fields of `Host`.
-- Prims (zincvm.c): `exec_primitive`. `Prims` has the list primitives, `Prims.Pairs`, `Numbers` and
--   `Texts` those on cells, numbers and strings, `Prims.Print` is `str`, `Prims.Runtime` the vectors,
--   the globals and `gensym`, `Prims.Streams` the streams, `Prims.Control` is `simple-error`,
--   `trap-error` and `eval-kl`, and `Prims.Dispatch` finds a primitive by its name and ties the
--   machine to the primitives that run machines. What the operating system does is the record
--   `Outside`.
-- Symbols (zincvm.c): `val_symbol` and the table of interned names.
-- Parse (zincvm.c): `parse_bytecode` and `resolve_jumps`. `Parse.Encode` is the written form, as
--   elm-compiler/src/Zinc/Csexp.elm writes it.
-- Bundle (zincvm.c): `parse_bundle`; `Bundle.Boot` is `init_globals` and `vm_load_bundle`, which fill
--   both tables and freeze the first.
-- `Plan` (zincvm.c): the shell programs of `exec-plan`, by `plan_decode`, `run_pipeline` and
--   `run_program`. `Plan.Decode.Encode` is the tagged tree. What the kernel answers is the
--   record `Kernel`.
-- Gc (gc.c): `Gc.Dirty` the remembered sets, `Gc.Queue` the page queue of the Cheney drain,
--   `Gc.Pages` is `allocatepage` and `grow_heap`, `Gc.Alloc` is `gcalloc_internal` over them,
--   `Gc.Nursery` is `gc_alloc`, `Gc.Roots` the shadow stack. The collections are parameters.
-- Tests: concrete inputs at which the theorems apply.
--
-- Bounds and fuel: the parser has one unit of fuel for each byte and one more; the loop of the
-- machine has as many rounds as it is asked to run, and its `int` counter overflows at the end of
-- 2^31, if no limit ends it before; a search in the values
-- table has 256 rounds, after which it would go round for ever; `plan_decode` has one level for
-- each depth that it allows; the scan for free pages has a round for each page. The bundle loader has
-- a round for each byte. A search in the symbol table has a round for each cell. The loop of
-- `defun_freeze` over the number of buckets doubles an `int` until one works: its rounds are an
-- argument, and the theorems speak of every number of them; within a round it tries the source's
-- million displacements. The buffer of `str` doubles from 2^12 up to 2^30. The loop of
-- `gcalloc_internal` ends within two rounds and that of the nursery within four. A machine inside a
-- primitive is one level deeper, and the depth is an argument of `exec_at`, with 2^31 rounds a
-- level. Unsigned words of 32 and 64 bits wrap where the source's do. The signed counters and products
-- that C leaves undefined when they overflow (`instr_count`, the `long` of `atol` and of the
-- arithmetic primitives, the load of the symbol table, the number of buckets) end the model's function
-- in the result that stands for undefined behaviour, like a read past a text and a read through a
-- value of the wrong kind; for `substring` the theorem excludes the overflow.
--
-- Not modelled: the moving of objects, the child side of a fork, the primitives on files and
-- processes, which are parameters, the failure of `malloc` and `realloc` for the defun table, the
-- freeze and the symbols, and all printing and tracing.
pub mod Base
pub mod Value
pub mod Table
pub mod Machine
pub mod Prims
pub mod Symbols
pub mod Parse
pub mod Bundle
pub mod Plan
pub mod Gc
pub mod Tests
