-- ===== src/Lib.antt =====
-- ccml is a C++ library for distributed machine learning: sockets and threads for a parameter
-- server (src/core), memory and matrices (src/math), and helpers (src/utils). This library models
-- the parts that have logic of their own and proves what makes them correct. Where a theorem of the
-- list below describes a defect, it says what the code does.
--
-- Parts, and the files that model them:
-- - Utils/Logging is src/utils/Logging.h. A piece of code that checks something returns its value and
--   the messages that it logged. CC_CHECK and LOG(FATAL) log and go on, as the macros do.
--   Logging/Sinks is src/utils/Logging.cpp: the descriptors that a message is written to. Logging/Quiet
--   has the lemmas on code that logs.
-- - Utils/StackTrace is src/utils/CustomStackTrace.h, over Core/ThreadLocal, and StackTrace/Tracer the
--   output function of src/utils/CustomStackTrace.cpp. StackTrace/Stacks has the proofs about one thread
--   that has its objects, StackTrace/Entries and StackTrace/Locals those about the buffers of pointers
--   and the first use in a thread; StackTrace/Threads, StackTrace/Emptiness, StackTrace/Drained,
--   StackTrace/Dangling and StackTrace/Tracer/Report put the operations of all threads together.
-- - Utils/Str is src/utils/StringUtils.cpp. Str/Prefix and Str/Split have the proofs. Str/Convert is
--   to_with_status and to of src/utils/StringUtils.h.
-- - Utils/Flags is src/utils/CommandLineParser.cpp: the registries of flags and the parser of the command
--   line, whose input of numbers is a parameter. Flags/Compaction has the proof about argv,
--   Flags/Assignment that about one argument, Flags/Usage is the text before the exit.
-- - Utils/Init is the registry of init functions of src/utils/Util.cpp; std::sort is a parameter, which
--   takes the comparison, with what its documentation promises. Init/Priority is InitFunction and the use
--   that src/math/Storage.cpp makes of it. Init/Start is init_main.
-- - Utils/Version is src/utils/Version.cpp.
-- - Math/Pool is src/math/PoolAllocator.cpp over src/math/Allocator.h, which the pool takes as a record of its
--   two virtual functions. Pool/Ownership and Pool/Cache have the proofs;
--   Pool/Printing is print_all.
-- - Math/Memory is src/math/MemoryHandle.cpp, a client of the pool.
-- - Math/Storage is StorageEngine::get_cpu_allocator of src/math/Storage.cpp and the RWLock of src/core/Locks.h,
--   for any number of threads.
-- - Math/Number is the arithmetic of `real`, a parameter. Math/Matrix: src/math/BaseMatrix.h and the apply
--   functions of src/math/BaseMatrix.cpp, whose element operations are not called yet in the source; the
--   classes of src/math/MatrixOps.h in Matrix/Unary, Matrix/Binary and Matrix/Several; the methods in
--   Matrix/Single, Matrix/Pair and Matrix/Multiple by the number of matrices, those with loops over
--   memory in Matrix/Loops; Matrix/Templates has those with a specialisation that is empty. An overload has the name of its class, as add2 for add(t1, t2).
--   Matrix/Checks and Matrix/Ranges have proofs.
-- - Math/Vector is src/math/Vector.h, over memory handles. Vector/Backing has the proofs.
-- - Core/ThreadLocal is src/core/ThreadLocal.h: the objects of all threads. ThreadLocal/Ownership has the
--   proofs.
-- - Core/Thread is the class Thread of src/core/Thread.h. Core/Queue is src/core/Queue.h. Core/Worker is the ThreadWorker of src/core/Thread.h, which uses the queue,
--   with a client thread. Worker/Order and Worker/Waiting have the proofs. Core/Condition is the
--   LockedCondition of src/core/Locks.h for any number of threads, with its proof in Condition/Wakeups.
-- - Core/Channel is SocketChannel::read, write, readv and writev of src/core/SocketChannel.cpp.
--   Channel/Buffer, Channel/Skip, Channel/Rounds and Channel/Vectored have the proofs.
-- - Core/Message is SocketChannel::write_message, read_message and the MessageReader, over the channel.
--   Message/Words, Message/Framing and Message/Reader have the proofs.
--   Channel/Progress and Message/Progress count the answers of the kernel that a call takes.
-- - Core/Proto is src/core/ProtoServer.h and src/core/ProtoServer.cpp: functions by name, over messages.
--   Protobuf is a parameter. Proto/Registry, Proto/Dispatch, Proto/Call, Proto/Client and
--   Proto/Progress have the proofs.
-- - Core/Server is the SocketWorker of src/core/LightServer.cpp, which serves one connection: it reads
--   messages from the channel, calls the server and writes the responses. Server/Accept is the thread
--   that makes the workers, Server/Connection the client. Server/Session, Server/Exchange,
--   Server/Call (a call from the client to the server and back) and Server/Accept/Stopping have the
--   proofs.
-- - Core/ParameterServer is what has a body in src/core/ParameterServer.h: ParameterServer/Blocks has the
--   proofs on the aligned buffer, ParameterServer/Lookup those on the lookups.
-- - Core/ServerMain is src/core/ParameterServerMain.cpp. ServerMain/Slots and ServerMain/Devices have the
--   proofs.
-- - Tests has the theorems of the list at concrete inputs, where they have hypotheses.
--
-- Conventions: a size_t is a natural number whose wrap-around is written out where the code can
-- reach it. What the kernel answers to a system call is a list of answers that the function takes;
-- a function that waits for good where the list ends returns none there. Undefined behaviour, such
-- as a read past a vector, is none too. The loop of split has fuel for one round more than the text
-- has bytes, and split-Splits shows that it always returns. The loop of a worker has fuel for its rounds;
-- one round for each answer of the kernel and one more are enough, and run-Conversation has one for
-- each message and one more. All other loops recurse on a list or count down. The number of vectors of
-- a transfer is converted to an int, as the code does.
-- Threads are program counters and a step relation.
--
-- Not modelled: system calls, the text of messages, formatted input, the time that
-- ProtoServer::handle_request stores unless it is built with CCML_DISABLE_TIMER, and the functions that are
-- declared and have no body (the handlers of src/core/ParameterServer.h, the virtual functions of
-- src/math/Vector.h).
pub mod Base
pub mod Utils
pub mod Math
pub mod Core
pub mod Tests
