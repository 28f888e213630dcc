-- ===== src/Lib.antt =====
-- A model of the mlvm, the virtual machine that runs imagoes: mobile agents, whose code is a logic
-- program. The program is a daemon in C. Its engine (engine/engine.c, include/engine.h) is an
-- abstract machine in the manner of Warren's that runs the code of one imago; its transport
-- (transport/) carries imagoes between servers as lists of byte frames, with timers and a table of
-- states that drive each PDU through the protocol layers. The threads of the daemon (system/) move
-- imagoes between queues: the scheduler has the engine run those that are ready, and puts each where
-- its status then says, which the threads for memory, timers and departure attend to.
--
-- Engine (engine/engine.c, include/engine.h, opcode/opcode.h)
--   Engine/Word.antt     the tagged words, as 32-bit patterns
--   Engine/Machine.antt  the registers of `engine`, memory, next, jump, backtrack, and the ways in
--                        which the code of an instruction ends
--   Engine/Trail.antt    trail, bbtrail, detrail, filter_trail, clear_trail; the trail, which grows
--                        down from the top of an imago's block, is the list of its words
--   Engine/Unify.antt    general unification, the code at the label UNIFY
--   Engine/Frames.antt   the frames and the control instructions: alloa, allod, try, call to
--                        return, retry, trust, neckcut, deeplabel, deepcut
--   Engine/Build.antt    the put and set instructions
--   Engine/Get.antt      jump, branch, getcon, getval, unifiable, nonunifiable, tryunifiable
--   Engine/Structure.antt getfloat, getlist, getvlist, getstr and their forms for a nested term
--   Engine/Number.antt   tagged integers, and the operators of C on int, with their wrap-around
--   Engine/Arithmetic.antt add to lshift, inc, dec, is, ifeq to ifge, aricmp
--   Engine/Branch.antt   the tests of a term, switch, hashing, ifeq0 to ifge0
--   Engine/Compare.antt  term comparison: identical to termcompare
--   Engine/Start.antt    stationary, worker and messenger
-- A machine state is a record, an instruction a function on it. Memory is a function from byte
-- addresses of words, and has no bounds of its own: where a theorem needs room, it says so.
-- Addresses are natural numbers and pointer steps are steps of four.
--
-- The numbers of type double, and strcmp on names, are parameters.
--
-- System
--   System/Queue.antt    system/queue.c: the queues of ICBs, linked by their next fields
--   System/Queue/Pool.antt the pools of ICBs and log records
--   System/Queue/Logs.antt the logs of imagoes: log_alive, log_moved, log_disposed, log_blocked, log_find
--   System/Threads.antt  system/imago_scheduler.c and system/imago_memory.c, with icb_get and icb_put
--                        of include/system.h
--   System/Threads/Sleep.antt system/imago_timer.c: imago_timer, timer_recall, timer_flush
-- The functions on queues work on a chain of next fields, and System/Queue/Refines.antt and Remove.antt
-- relate the chain to the list of its records. The threads use these lists. What engine and mmanager
-- make of the ICB that they are called with, what malloc gives and what the clock shows are arguments;
-- times are in microseconds. The steps of System/Threads/Steps.antt are whole calls, in any order.
--
-- Memory (memory/mmanager.c)
--   Memory.antt          the fields of an imago's block, and how a word of it is moved
--   Memory/Code.antt     opcode/opcode.c and include/system.h: the types of the instructions, adjust_code
--   Memory/Expansion.antt do_expansion
--   Memory/Manager.antt  mmanager, and do_gc_start and do_gc_stop, the buffer of a collection
-- Here the block is memory as a whole, with the trail in it, and every loop takes fuel. What realloc
-- answers and the memory that it leaves are arguments; that it keeps the contents is a hypothesis.
--
-- Transport
--   Transport/Frame.antt         transport/frame.c: frames, the pool, frame_new, frame_free
--   Transport/Frame/Write.antt   frame_write_string and what rests on it
--   Transport/Frame/Read.antt    frame_read_string_aux and what rests on it
--   Transport/Frame/Transfer.antt frame_erase, frame_append_string, frame_copy, frame_move,
--                        frame_peek_string
--   Transport/Queue.antt         transport/queue.c: the queues of nodes
--   Transport/Timer.antt         transport/timer.c: the table of timers, the signal handler
--   Transport/StateMachine.antt  transport/state_machine.c: registration, transitions
--   Transport/Connection.antt    transport/connection.c: the table of connections, its locks, hash
--   Transport/Connection/Keeper.antt con_init, SIGALRM_cleanup, con_test, con_end
--   Transport/Connection/Socket.antt make_con, con_rcv
--   Transport/Pdu.antt           transport/imago_pdu.c: the table of PDUs, pdu_clone
-- A list of frames is a list, the first frame first, and FRAME_SIZE is a parameter. The answers of
-- `malloc` and `gettimeofday`, and the callbacks of timers, are arguments; so are those of the sockets.
-- An entry of the table of connections has its mutex in the model: a function that would have to wait
-- for another thread has no result.
--
-- Fuel. Dereferencing and unification can fail to end on cyclic references, so they run on fuel,
-- and running out is a result of its own. `Engine.Get.Constant` has a bound for dereferencing where
-- references do not lead round. The rounds of frame_write_string have fuel for one byte each. The
-- search of a hash table has fuel for one entry each, as that of a connection has, and the loops over a queue need more fuel than
-- the queue has records.
--
-- Not modelled: locking (each function is one step) but in the table of connections, debug output,
-- sockets, the dispatch of the engine's instructions and its built-in predicates, the protocol layers,
-- the start-up and the configuration of the daemon, the threads that create, receive and send
-- imagoes, the collection itself, the compiler and the loader.
-- Base.antt passes on the names that the parts share; Base/ has the lemmas on lists, on arrays as
-- functions, and on Boolean tests. The Tests modules apply the theorems to concrete values.
pub mod Base
pub mod Engine
pub mod Memory
pub mod System
pub mod Transport
