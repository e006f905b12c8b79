-- ===== src/Lib.antt =====
-- wrk, the HTTP load generator of this repository (src/*.c).
--
-- The program divides a number of connections among several threads; each thread opens its share,
-- sends requests on them from an event loop, and counts and times the responses. A thread owns an
-- event loop, a Lua state and its connections; the handlers in src/wrk.c run on that loop and mutate
-- the thread, one connection and two histograms that all threads share.
--
-- The files, and the code that each is about:
--   Prelude        shared names, Boolean tests on numbers, arrays as lists with C's indices
--   Floating       `long double` as an interface of operations without laws
--                  (Floating/Hundredths: an instance for the tests)
--   Units          src/units.c, the tables and scan_units, scan_metric, scan_time
--     Scanf        the conversions of `sscanf` that src/units.c uses
--     Decimal      numerals, and how sscanf reads them
--     Scan         what scan_time and scan_metric accept
--     Format       format_units and the functions on it, and src/aprintf.c
--   Stats          src/stats.c and the structures of src/stats.h
--     Samples      lists of samples, and when a histogram represents one
--     Record       stats_record, and runs of it
--     Queries      the loops of stats_mean and stats_percentile
--     Moments      stats_mean, stats_stdev, stats_within_stdev, stats_percentile
--     Values       stats_popcount and stats_value_at
--     Correct, Backfill   stats_correct
--     Atomic       the loop for the minimum in stats_record, run by several threads
--   Buffers        `buffer` of src/wrk.h, and buffer_append, buffer_reset, buffer_pushlstring of
--                  src/script.c; Buffers/Text: the text that a buffer holds
--   Net            src/net.c, src/net.h and the transport functions of src/ssl.c
--     Context      ssl_init and ssl_offload_init of src/ssl.c
--   Connection     the structures of src/wrk.h, and the calls that handlers make
--     Registry     the handlers that the event loop keeps for a descriptor
--     Socket       connect_socket and reconnect_socket of src/wrk.c
--     ThreadMain   thread_main of src/wrk.c (ThreadMain/Opened: the connections it opens)
--     Callbacks    header_field, header_value, response_body, response_complete of src/wrk.c and
--                  script_response of src/script.c (HeaderTable: the table that it builds)
--     Events       socket_connected (handle_connected), socket_writeable (handle_writeable),
--                  socket_readable (handle_readable), delay_request and record_rate of src/wrk.c
--                  (Events/Ending: a body that ends with the connection; Events/Blocking: nothing to
--                  read yet)
--     Batch        what the handlers count and time of a batch of requests, as an abstract machine
--                  (Batch/Reading: socket_readable implements it; Batch/Exchange: a batch and its
--                  responses)
--     Life         the life of one connection: the event loop calls the registered handlers and the
--                  timers in any order (Life/Phases, Life/Reading: how each handler moves a connection
--                  between its phases; Life/Reached: the states that can be reached; Life/Stale: a
--                  timer that outlives its connection; Life/Lost: a reconnect that fails at once;
--                  Life/Bounds: how far a request is written)
--   Arguments      parse_args of src/wrk.c (Arguments/Accepted: what it accepts)
--   Url            copy_url_part of src/wrk.c and script_parse_url of src/script.c
--   Lua            the Lua state, as src/script.c uses it (Lua/Simple: a small instance for runs)
--   Script         src/script.c
--     Fields       the tables of functions, set_field, set_fields, push_url_part
--     Setup        script_create, script_resolve, script_push_thread, script_init
--     Requests     script_delay, script_request, the tests for functions, script_verify_request
--                  (Requests/Place: the place of an error)
--     Report       script_summary, script_errors, script_push_stats, script_done
--     Addresses    the objects of addresses, script_wrk_lookup, script_wrk_connect
--     Histograms   the objects of the histograms (Histograms/Index: their fields)
--     Threads      the objects of the threads, script_copy_value (Threads/Copying: its two stacks)
--     Balance      which stack each call leaves: Balance/Create for new states and the report,
--                  Balance/Calls for the calls in between, Balance/Objects for those of scripts,
--                  Balance/Setups for what wrk.setup can do with its thread
--   Main           main of src/wrk.c, the sums of the threads' counters and the correction
--     Start        main up to the start of the threads (Start/Started: the Lua states)
--     Run          main as a whole (Run/Opening: the transport and the announcement; Run/Finishing:
--                  from the end of the threads on; Run/Reported: what a run has printed when it
--                  ends; Chains: chains of steps that can fail)
--   Printing       print_stats_header, print_units, print_stats, print_stats_latency of src/wrk.c and
--                  the last lines of main (Width: the width of print_units; Layout: the lines)
--   Client         client_wrks/wrk_offload_engine/src, a second copy of the program, where
--                  connect_socket does not call SSL_set_options and ssl_init does not enable kernel TLS
--     Socket       connect_socket and reconnect_socket, and ssl_init
--     Handlers     the handlers that can connect again; ThreadMain: thread_main
--     Erased       the copy against src/wrk.c, up to those calls (Erased/Handlers,
--                  Erased/Reading, Erased/Runs, Erased/Opened; Erased/Nulls: the calls with a NULL)
--   The modules called Tests run definitions and theorems at concrete inputs; Connection/Samples has
--   the data for them.
--
-- A handler is a function on `Connection.World`: the thread, the connection, the two histograms and
-- the list of calls made so far. What it learns from outside (the clock, the answers of system
-- calls and of OpenSSL, the events of the HTTP parser, the script) is an argument, so that a theorem
-- holds for every such answer. Numbers are native; additions and subtractions on uint64_t, size_t
-- and uint32_t fields are written with their modulus where the code can wrap. Sizes that count bytes
-- in memory (a cursor, the index of a scan) are left unbounded: theorems assume what keeps them in
-- range where it matters.
--
-- The Lua library is the interface `Lua.Lua`: numbers, tables, functions and metatables without laws.
-- What src/script.c works on directly, the stack of a state, is written out after the library's
-- manual: what each call pops and pushes, and which value an index means. A use of the stack that the
-- manual does not allow is `broken`, a Lua error `raised`, a NULL that is followed `crashed`. The
-- libraries behind script_wrk_lookup and script_wrk_connect, getopt_long, and http_parser_parse_url
-- and http_parser_execute are arguments.
--
-- Fuel: script_copy_value takes one for each value and each entry. The growing loop of
-- buffer_append adds 1024 bytes in each round, so one round for each byte needed is enough
-- (`Buffers.Text.grow-Grown`); script_response's loop takes at least two bytes in a round; the
-- inner loop of stats_correct runs on a number of rounds for which the length of the array is
-- enough when the interval is positive. An interval is a natural number here: the code's is an
-- int64_t that main computes as a quotient of unsigned numbers. In Stats the compare-and-swap loops
-- of stats_record are those of one thread; Stats/Atomic interleaves threads. A division by zero,
-- which the check of the arguments rules out in main, gives 0.
--
-- In Connection/Life a step is one call of a handler that is registered for the descriptor, of
-- delay_request where a delay is due, or of record_rate, or a change made for other connections.
-- What a step gets from outside is arbitrary but for what Life says of the event loop and the
-- parser. In Main/Run what the threads do until they are stopped is a function of what main hands
-- to them. What a call of wrk.setup does is an argument too: it is given the state of main and that of
-- the thread, on which a script can call thread:get and thread:set. What it does to threads that are
-- running already is left out.
--
-- Not modelled: the signals, the sleep and the usage text of main; script_header_done, which
-- nothing calls; the memory of C strings and of `struct addrinfo`; a socket() that fails.
-- src/ae*.c, src/zmalloc.c and src/http_parser.c are copies of other projects' libraries: their calls
-- are recorded, or their answers are arguments. Of the copy of the program in client_wrks/wrk_offload_engine, what is the
-- same as in src is not modelled again.
pub mod Arguments
pub mod Buffers
pub mod Client
pub mod Connection
pub mod Floating
pub mod Lua
pub mod Main
pub mod Net
pub mod Prelude
pub mod Printing
pub mod Script
pub mod Stats
pub mod Units
pub mod Url
