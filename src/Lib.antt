-- ===== src/Lib.antt =====
-- fast_net: a page server and its clients, and a family of io_uring programs that measure how fast
-- one machine can send words to another.
--
-- The page programs. A client asks for pages by number; the messages are packed structs in network
-- byte order. The server keeps its pages in one block that a strategy fills, and the client tests a
-- page that it gets with the same strategy.
--   Wire      src/models/get_page.hpp: the structs, their conversions and their bytes. The system's
--             htonl and ntohl, and how a machine stores a word, are a record `Host` with documented
--             laws `IsHost`; a big-endian and a little-endian machine satisfy them.
--   Memory    src/memory_block.hpp, src/consts.hpp: strategies, the block, the verifier.
--   Server    src/server.cpp: `handle_client`, from the results of its reads to the calls that it
--             makes. `Option` marks an access outside of the block.
--   PageServer  src/server_iou.cpp: `event_loop`, the same server on io_uring, with the blocks that
--             it allocates for its requests; it answers as `reply` of Server does. What the kernel
--             reads behind the pointers of a write is not modelled.
--   Client    src/client.cpp: the loop of `main`. What `send` and `read` give is an argument; one
--             stream of read results lasts for the whole run. `receive` is the inner loop, `conclude`
--             what follows it, `run_rounds` the loop over the requests.
--   BatchClient  src/client_iou.cpp: its functions under their names; `collect` is the loop over the
--             completions. The threads run one after another: each changes its own parts of the two
--             vectors only (BatchClient/Isolation). The completions are arguments; what a server and
--             the kernel do is stated of what the code submits (BatchClient/Submitted).
--   Config    src/static_config.hpp: the configuration, from a file and the environment, whose
--             contents are arguments; an exception is a value of `Result`. Child modules have the
--             string functions that it uses, std::stoul and std::to_string.
--
-- The word programs. A client sends numbers, the server answers each with a page of that number, or
-- only counts the bytes. They hand requests to a ring (io_uring) and take completions from it.
--   Uring     the result of a completion. Submissions are results of the models, completions their
--             arguments, in any order.
--   Pool      src/buffer_pool.hpp: the constructor, the destructor, `allocate` and `deallocate`, on a
--             heap of blocks with `malloc` and `free`.
--   Simple    src/simple_consts.hpp: RequestData, and the requests in flight.
--   SimpleServer  src/simple_iou_server.cpp: `event_loop`, one function for each case of its switch.
--             SimpleServer/Program: `handle_client` and `main` from the loop of accept on, with the
--             threads interleaved in any way.
--   SimpleClient  src/simple_iou_client.cpp: `send_receive_data`: `submit` is the part of a round that
--             submits, `complete` the part that takes completions, `rounds` the loop.
--             SimpleClient/Verify: what follows the loop under VERIFY.
--             SimpleClient/Builds: the loop in two builds, which differ in VERIFY, ALLOCATE_MALLOC and
--             the size of the pool.
--             SimpleClient/Program: `main` with its threads and the sums that it prints.
--             SimpleClient/Answered: a thread together with its connection in SimpleServer.
--   MaxServer src/max_server.cpp: the completions of all threads on the shared counters, and the loop
--             in which `main` waits; the comparison of the percentage, a double, is an argument.
--             MaxServer/Reads: the event loop of one connection with its reads and buffers.
--             MaxServer/Program: `handle_client` and `main` from the loop of accept on, with the
--             threads interleaved in any way.
--   MaxClient src/max_client.cpp: `send_data`, likewise by rounds.
--   Ranges    the loops in the clients' `main`, and the batches of `client_thread` in
--             src/client_iou.cpp.
--   Sockets   the start and the end of the programs: the clients' sockets and rings
--             (Sockets/Clients), and `main` of the servers up to its loop of accept
--             (Sockets/Servers). What the system answers is an argument, the calls are a result.
--   Utils     src/utils.hpp and src/simple_iou_client.cpp: the elements that `debug_print_array` reads.
--   Base      names, list functions on native numbers, tests and exceptions that all parts share.
--   Tests     the theorems at concrete inputs.
--
-- Numbers. size_t and uint64_t wrap at 2^64 and uint32_t at 2^32 where the code computes with them.
-- Counters of type int are numbers without a bound; a hypothesis says so where it matters. A macro of
-- the sources (PAGE_SIZE, RING_SIZE, VERIFY, ALLOCATE_MALLOC, ...) is an argument or a field.
--
-- Fuel. `batches` has fuel for one round for each request; the inner loops of SimpleClient and
-- the loops of Utils have more than any single condition of their tests allows rounds, so that it is
-- the tests that end them, as is proved of both loops of SimpleClient. All other loops are by recursion on what they go through.
--
-- Left out: logging, timing and rates; the parameters of sockets and rings; `malloc` that fails;
-- the rest of src/utils.hpp and of src/io_uring_utils.hpp; the scripts and the build files.
pub mod Base
pub mod BatchClient
pub mod Client
pub mod Config
pub mod MaxClient
pub mod MaxServer
pub mod Memory
pub mod PageServer
pub mod Pool
pub mod Ranges
pub mod Server
pub mod Simple
pub mod SimpleClient
pub mod SimpleServer
pub mod Sockets
pub mod Tests
pub mod Uring
pub mod Utils
pub mod Wire
