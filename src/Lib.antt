-- ===== src/Lib.antt =====
-- Verification library of phase0, a C++ server framework of fibers, timers, an I/O manager and HTTP.
--
-- The parts, and the files that model them (paths from the repository's root):
--
-- * ByteArray.antt and the modules below it: the class ByteArray of src/utils/bytearray.cc. State is the
--   object and the loops of write, read and addCapacity; Position is setPosition and clear; Codec and
--   Integers are the zigzag, varint, fixed-width and string operations, with byteswap of
--   src/socket/include/endians.h; Buffers is the iovec views. A Node is the list of its bytes, m_root the
--   whole list of nodes and m_cur an index into it, none for the null pointer. An exception is the result
--   out_of_range, undefined behaviour is fault, as is a signed overflow of the zigzag encoding. size_t arithmetic wraps at 2 ^ 64. Valid is the invariant,
--   Tape the abstract sequence of bytes with a position. addCapacity divides as doubles, which are exact
--   below 2 ^ 53: that is the limit in the theorems' hypotheses.
-- * Timer.antt and below: src/timer/timer.cc. A timer's address is its index in a heap of timers, the
--   std::set is the list of its elements in the comparator's order, and the clock and the addresses of new
--   objects are arguments. Every operation holds the manager's mutex, so it is one step on the state.
-- * Utils.antt and below: src/utils/utils.cc. Url is UrlEncode and UrlDecode with their tables (UrlLaws
--   their proofs), Strings the trims. A string is the list of its bytes; find_first_not_of and
--   find_last_not_of of std::string are written out.
-- * Fiber.antt and below: src/fiber/fiber.cc (State; Lifecycle has the steps and the states reached) and
--   src/fiber/scheduler.cc with its header (Scheduler; Picking, Counting and Reaching are the proofs). A
--   failed assertion is none. A thread of the scheduler is a place in the loop of `run`, and each part of
--   the loop that holds the mutex or changes a counter is one step, so a run is any interleaving of the
--   threads' steps with calls of schedule and stop. The base class's idle and stopping are modelled, and
--   the assertion that a queued fiber is READY is not.
-- * IoManager.antt and below: src/fiber/iomannager.cc. State has the contexts and the operations on events,
--   Context the validity of one context, Pending the invariant and cancelEvent, Dispatch cancelAll and the
--   body of idle's loop over epoll's events, Arming addEvent and delEvent, Idle a round of idle with the
--   timer manager, on the times of its two reads of the clock and what epoll_wait reports, and IdleLaws what
--   it keeps. The callbacks that it schedules are appended to `jobs`. The mask of a context is two
--   flags, a failed assertion or a use of a null pointer is none, whether epoll_ctl fails and whether the
--   fiber that calls addEvent is in EXEC are arguments,
--   and what is handed to a scheduler is appended to `scheduled`. The pending count is not bounded above,
--   and wraps below zero as size_t does.
-- * Http.antt and below: src/http/http.cc with include/http.h, and src/http/servlet.cc with its header.
--   Names is CaseInsensitiveLess, FieldMap the std::map under it (Ordered has its order), Params the macro
--   PARSE_PARAM (ParamLaws), Message and Requests the two classes, Codes the names of methods and
--   statuses, Dump the printing. RequestLaws, Calls, Reading and Queries are about requests, DumpLaws and
--   ResponseLaws about what is printed. Servlets is the dispatcher (ServletLaws). A string is the list of
--   its bytes, and a map the list of its entries in order. The tables of the parser's header, Time2Str,
--   fnmatch and the callbacks are arguments. Session has the request parser's callbacks of
--   src/http/HttpParser.cc, recvRequest of src/http/HttpSession.cc and the loop of handleClient of
--   src/http/HttpServer.cc, over an argument for http_parser_execute (SessionLaws, ServerLaws). recvRequest's
--   ints are written out, and their overflow is fault; a servlet may change the request, of which the loop
--   reads isClose again.
-- * Hook.antt and below: src/hook/FdManager.cc (FdManager; FdLaws) and src/hook/hook.cc (Calls: socket,
--   close, fcntl, ioctl, setsockopt; Io: do_io, connect_with_timeout, the sleeps). Nonblock, Steps and
--   Reaching are about O_NONBLOCK, with the system's calls as a record of functions and what the code
--   relies on in them as SetsFlags and SetsFionbio; IoLaws is about do_io, whose surroundings are a list of attempts. The
--   table of contexts holds them by value: the code reaches a context only through its descriptor.
-- * Stream.antt and below: readFixSize (Reading) and writeFixSize (Writing) of src/stream/stream.cc, on any
--   stream given by its read or write; the int that they return is its bit pattern.
-- * Log.antt and below: LogFormatter::init of src/log/Logger.cc (Pattern) and its
--   termination (PatternLaws); Scanning and Printing follow it over a printed pattern for RoundTrip. The items are the
--   letters and formats they are made for, their output is not modelled. Loggers has the operations of Logger,
--   LogAppender and LoggerManager (src/log/LoggerManager.cc) on shared loggers and appenders, Calls the calls
--   a program makes of them, Registered and Applied what these keep, CallLaws what log does after them;
--   Formatters is about setFormatter, and Levels about src/log/LogLevel.cc. An appender's log is the test of
--   its level: an event that passes is written, with the formatter that the appender has then, and a null one
--   is a use of a null pointer, null_formatter.
-- * Address.antt and below: src/socket/address.cc. Masks has the two families' broadcast, network and mask
--   functions (MaskLaws with Swapping, Ipv6Laws), Compare operator< and operator==, Lookup the taking apart
--   of a host and what getaddrinfo's results become (LookupLaws), Printing insert (PrintLaws), UnixPath
--   UnixAddress. A port or an address stands as the host reads it from memory, on a host of either order; an
--   IPv6 address is its 16 bytes, or its 8 groups. Where the code's arithmetic is undefined there is no result.
-- * Socket.antt and below: src/socket/socket.cc. State is the class, with the system's calls as a record of
--   functions and the descriptors' opening and closing as events; Opening counts these, Clients those of
--   accept, Calls over every sequence of calls; Bound is about the stored local address.
-- * TcpServer.antt and below: src/tcpserver/tcpserver.cc over Socket.State (State; Binding, Accepting). What
--   it hands to its workers are lists of tasks, and startAccept runs over the rounds that are made of it.
--   The seconds and microseconds of setRecvTimeout are bit patterns of int.
--
-- Loops are structural recursion, on the list of nodes, on the set's list or on the bytes that a buffer has
-- room for; encode_varint recurses on the size of the local array `tmp` and read_varint on the number of
-- rounds of the loop in the source (5 for 32 bits, 10 for 64), which the theorems show to be enough.
--
-- The loops of PARSE_PARAM, readFixSize and writeFixSize recurse on a number of rounds, one more than
-- there are bytes, which the theorems show to be enough; do_io recurses on what it is answered. Both loops of
-- LogFormatter::init recurse on one more round than the pattern has bytes; Logger::log, on the number of
-- loggers it passes, of which two are enough.
--
-- Not modelled: the copy of the http-parser library, files and the system's calls, the log's output, the
-- configuration's YAML and the float and double operations, which are bit casts.

pub mod Base
pub mod ByteArray
pub mod Timer
pub mod Utils
pub mod Fiber
pub mod IoManager
pub mod Http
pub mod Hook
pub mod Stream
pub mod Log
pub mod Address
pub mod Socket
pub mod TcpServer
