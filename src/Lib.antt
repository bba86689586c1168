-- ===== src/Lib.antt =====
-- NEXS is a runtime and kernel in C around a registry: core/ (allocators and values), registry/ (a tree of
-- keys with message queues), lang/ (an interpreter) and kernel/ (block cache, files, scheduling).
-- This library models parts of it and proves what makes them correct. The parts are separate programs over
-- their own static variables; they meet where one calls the other: the queues of registry/reg_ipc.c send
-- values of core/value.c through the pipe format, the journal logs blocks through the block cache, and
-- both sizes and limits come from the size table.
--
-- Which file models what:
--   Config     core/include/nexs_common.h: the limits for each POOL_ macro.
--   Buddy      core/buddy.c: `Tree` is `buddy_tree`, and `buddy_alloc`, `buddy_free`, `alloc_node` (the
--              function buddy_alloc_node) and `free_node` (buddy_free_node) are its operations.
--   Pager      core/pager.c: `Table` is `page_table`; `page_alloc` and `page_free` are the hosted build,
--              `bump_alloc` and `bump_free` the same functions of the bare-metal build.
--   Blk        kernel/blk.c: `State` holds the cache, the clock and the devices; a driver is an argument,
--              and so is that it reads back what was written (`IsDisk`).
--   Vfs        kernel/vfs.c: `Vfs` holds the descriptors, the inodes with their registry keys, the mounts
--              and the console.
--   Value      core/value.c: `Value` has a constructor for each `ValueType`, and one more for each
--              type whose text or path is NULL.
--   Wire       registry/reg_ipc.c: pipe_serialize_value and pipe_deserialize_value over lists of bytes.
--   Ipc        registry/reg_ipc.c: the queue of one key, `reg_ipc_send`, `reg_ipc_recv`, and the move of a
--              queue to a pipe (`enable_pipes`, in walk_and_enable_pipes). What the pipe takes of a write is an
--              argument.
--   FnTable    lang/fn_table.c: `FnTable` is `g_fn_table` with `g_fn_count`.
--   Array      core/dynarray.c: `DynArray` with `arr_set` and `arr_get_at`.
--   Registry   registry/registry.c: `Registry` is the tree under g_registry.root with total_keys; lookup, making,
--              setting, pointers and the search through scopes; Registry/Remove deletes, unmounts and moves.
--   Lexer      lang/lexer.c: `Lexer` is what is left of the source; `lexer_next` and `lexer_peek` over one function
--              for each branch, and the tables of lang/include/nexs_lex.h in Lexer/Tokens.
--   Kmsg       kernel/msg.c: `kmsg_encode` and `kmsg_decode`, with `strtok` written out.
--   Journal    kernel/journal.c: `Journal` holds its static variables; it works over `Blocks`, an interface to the
--              block layer (Journal/Store), which the cache of Blk fills (Journal/OverCache).
--   Sched      kernel/sched.c and kernel/proc.c: `Sched` holds the processes, the queues of the levels with
--              their tails, and the current process (g_current_proc). Sched/Queues reads the queues as lists.
--   PathName   core/utils.c: the last name and the directory of a path, joining, and trimming.
--   Common     what the others share: Boolean tests, lists, C strings, numerals, and numbers as bytes.
-- In each part, the file of the part's name has the definitions, its child modules have what is proved, and
-- its Tests runs on concrete inputs.
--
-- Conventions: a number is a natural number, and a function that can exceed its machine type says so
-- by `% 2 ^ w`. An answer of -1 or NULL is `none` or `false`. A table is a function of its index, a
-- chain of message nodes is a list, and the processes of a queue are linked in a store. Loops over a
-- table recurse on the number of slots that are left. Some take fuel, and the theorems about them give
-- enough: `pipe_deserialize_value` a number above the depth of arrays in arrays, the node functions of
-- Buddy the depth of the tree, and the loop of buddy_next_pow2 its rounds, and `arr_ensure_cap` more
-- rounds than the index, where an index below 2^57 keeps the bytes of the block below 2^64. The walks of
-- Sched along a queue take as fuel a number that no queue may exceed. In Registry the loop that frees keys takes the number of keys, and the search through scopes two
-- rounds more than the scope has bytes. The lexer and the journal need none: they recurse on the text and on the
-- number of records.
--
-- Not modelled: what only prints, reads a device or calls the host; the parser, the evaluator and the
-- compiler; mounting, binding and listing in the registry; the file systems; the vendored
-- include/utf8.h. The contents of allocated memory, aliasing of arrays and the failure of a registry
-- write do not show. Running out of memory shows in Buddy, Pager and `arr_set`.
pub mod Common
pub mod Config
pub mod Buddy
pub mod Pager
pub mod Blk
pub mod Vfs
pub mod Value
pub mod Wire
pub mod Ipc
pub mod FnTable
pub mod Array
pub mod Sched
pub mod PathName
pub mod Registry
pub mod Lexer
pub mod Journal
pub mod Kmsg
