-- ===== src/Lib.antt =====
-- Models of parts of Verona: of the runtime (src/rt) and of the parser (src/parser).
--
-- Rt models the runtime. Rt.ThreadState is the leak detector: Rt.ThreadState.Defs is
-- src/rt/sched/threadstate.h (`next`, `vote`, `vote_one`, `reset`, `reset_one`; `none` stands for
-- `abort()`), Rt.ThreadState.Thread the part of src/rt/sched/schedulerthread.h that drives it
-- (`want_ld` is `request_ld`, the opening of `ld_protocol` is `believe_done_check`, a round of its loop
-- is `ask`, whose actions are `on_enter`), as steps of threads that interleave in any order.
--
-- Rt.Stack is src/rt/ds/stack.h. Rt.Stack.Thin has the functions of `StackThin` under their names, over
-- a memory of words; a word is an element or a link, as in the source. Rt.Stack.Backup is `BackupAlloc`
-- and `Stack`, whose functions are those of `StackThin` over `backup_calls`; `destroy` is `~Stack`. The
-- allocator is a parameter, and Rt.Stack.Holds.IsAllocator is what is asked of it: blocks are aligned,
-- apart from each other and from `null_block`. Its field `junk` is what stands in a block from when it
-- is given back (`forget`), so no result rests on a read of such a block. The loops of `forall` and
-- `dealloc` recur on fuel; the results on them say how much is enough.
--
-- Rt.Mpscq is src/rt/ds/mpscq.h. Rt.Mpscq.Defs has its functions, a pointer being an address and a
-- state; `enqueue` is cut in two at the `yield` between its exchange and its link, and `mark_notify` is
-- given by a round of its loop. Rt.Mpscq.Steps lets the threads interleave: a pointer that a thread has
-- read from `back` is any pointer when the thread uses it. `History` of Rt.Mpscq.History is a sequence of
-- such steps with the messages sent, taken and left; its clients enqueue no message that is null or in
-- the queue. `Owned` of Rt.Mpscq.Owner is one in which only the owner of the queue puts it to sleep.
-- `destroy` is no such step: no thread uses the queue any more.
--
-- Rt.Object is part of src/rt/object/object.h; the alignment of objects is a parameter, since it
-- is the allocator's. Rt.Object.Header has the functions on a header word, Rt.Object.Cown the strong
-- count of a cown as threads share it: `decref_cown` and `acquire_strong_from_weak` are cut at their
-- `yield`, the second halves being `decref_cown_zero` and `acquire_failed`. Rt.Object.Shared is
-- the count of an immutable object, `decref` being `decref_load` and `decref_sub`. Rt.Object.Root is
-- `root_and_class`, whose loop `halve` recurs on fuel; the result on it says how much is enough.
--
-- Rt.ObjectMap is src/rt/ds/hashmap.h for any hash function and probe mask: Rt.ObjectMap.Defs has
-- `find`, `erase` and a pass of `insert` over the slots (`insert_pass`, up to where `insert` resizes and
-- tries again), whose fuel is one round for each slot, which is proved enough. Rt.ObjectMap.Resize has
-- `insert` as a whole, `resize` and `clear`; the fuel of `insert` is the depth of its calls of itself.
-- Home, Index, Rehash and Retry lead to Rt.ObjectMap.Total, whose result says how much is enough when
-- the hashes of the keys are apart. Iterate has the iterators and the marks.
--
-- Rt.ReadRefCount is `ReadRefCount` of src/rt/sched/cown.h: `add_read`, `release_read` and `try_write`,
-- the last two cut in parts of one atomic access each (`try_write_load`, `try_write_mark`,
-- `try_write_clear`; the step `hands_over` is the end of `release_read`). One thread has the cown. A
-- write starts after `try_write`, as in `run`, or in the step `acquires_asleep` without it, as
-- `fast_send` lets it in on a cown that it finds asleep.
--
-- Rt.Behaviours is how behaviours acquire cowns, in src/rt/sched/cown.h, behaviour.h and multimessage.h.
-- Rt.Behaviours.Defs has the functions under their names: `fast_send` is a call of `schedule` from its
-- first lock to its return, given by one access at a time (the `fetch_sub` and the `dequeue` of a cown
-- that it acquires are one step, since no other thread takes messages then), `run` a part of the
-- function of that name on a thread, with `run_step` in it. A queue is a list of bodies, or asleep,
-- as Rt.Mpscq shows of the source's. A body is a number, and its requests, which the program decides,
-- are a parameter; std::sort is not modelled. WritesOnly of Rt.Behaviours.Holding asks for requests that
-- are writes, strictly sorted by cown: std::sort keeps a cown that a body requests twice, and the call
-- of such a body waits for its own lock (Rt.Behaviours.Tests). `Step` allows any order of threads, any
-- choice from the scheduler queues and the end of a batch at any message. Holding is who holds each cown, Calls, Turns and Releasing show that the steps keep it;
-- Order is why nothing waits in a circle: the locks are taken in the order of the cowns, and the bodies
-- with several requests stand in every queue in the order in which they had all their locks. `try_write`
-- is one step, and so are the accesses of `run` and `run_step` between two messages; the step
-- `finds_late` is a message linked between `peek` and `dequeue`. Rt.ReadRefCount has the parts of
-- `try_write`. Epochs, notifications, `release_early` and the reference counts are left out.
--
-- Rt.Queue is src/rt/ds/queue.h and Rt.DlList src/rt/ds/dllist.h, over the fields of the elements, which
-- the containers share with their clients. The loops of `length` and `clear` recur on fuel, one more
-- than the number of elements, which is proved enough. Rt.Scramble is
-- src/rt/ds/scramble.h, whose random generator is a parameter.
--
-- Parser models the parser. Parser.Dnf is src/parser/dnf.cc over the type nodes of src/parser/ast.h.
-- `conjunction` recurs on fuel, one more than the size of its operands, which is proved enough.
-- Parser.Dnf.Meaning is the independent meaning of types.
--
-- Parser.Escaping is src/parser/escaping.cc, over lists of bytes: Check has the `is_` functions, Escape
-- and Unescape the functions of those names (`digits` and `read_hex` are the constructor of `utf8`,
-- `encode` is its `operator<<`), Blank the functions on whole literals. `crlf2lf` recurs on fuel, one
-- more than the length of the string, which is proved enough.
--
-- Parser.Path is the part of src/parser/path.cc that does not call the operating system, as on Linux.
--
-- Parser.Lexer is src/parser/lexer.cc: Symbols, Numbers, Quotes and Lex have its functions under their
-- names, Classes the tables, Tokens the tokens with the offsets of their locations
-- (src/parser/source.h). A function that moves the index returns it. `lex` recurs on fuel, one more
-- than the length of the source, which is proved enough. Bytes are unsigned. Cut and CutLiterals are
-- the bounds of each function, Total those of `lex`, Runs what certain runs of bytes become.
--
-- Not modelled: the other parts of the repository, as the manifest lists them; weak memory orders
-- (every atomic access is one step of an interleaving); allocation failure.
pub mod Prelude
pub mod Rt
pub mod Parser
