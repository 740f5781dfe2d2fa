-- ===== src/Lib.antt =====
-- The ZooKeeper C client of this repository (src/zk and include), as the PHP extension uses it.
--
-- The parts. A request is a record of src/zk/zookeeper.jute.c, written to an output archive of
-- src/zk/recordio.c; the bytes are queued as a packet, and src/zk/zookeeper.c puts the packets on the
-- socket, each behind its length. The answers come back the same way: recv_buffer puts a frame
-- together, and an input archive over it is read record by record. A path goes out behind the chroot
-- of the handle. What the caller wants to be told waits in sent_requests; zookeeper_process takes it off
-- when the answer has come, and moves it to completions_to_process, from where process_completions
-- calls it. A connection that is lost empties all of these queues, with an error for everybody. A
-- watcher that a request has registered waits in one of the handle's three tables
-- (src/zk/zk_hashtable.c) until an event takes it out. A connection starts with a handshake, which is
-- laid out by hand.
--
-- The files.
--   Prelude    the shared names: Boolean tests, lists measured by native numbers, bytes of a word.
--   Codes      include/zookeeper.h, include/proto.h, src/zk/zk_adaptor.h: error codes, states, event
--              types, operations.
--   Recordio   src/zk/recordio.c: `BuffStruct` is struct buff_struct, and every oa_ and ia_ function
--              has its name. `Heap` is the allocator. Words holds zoo_htonll, Ops the functions, Spec
--              what it means that a function writes or reads some bytes; Growth is about
--              resize_buffer, Output and Input about the two kinds of archives, Safety about memory
--              accesses on any input, Transfer about an archive that is written and then read, Rules
--              about records made of fields, NullString about the null string.
--   Jute       src/zk/zookeeper.jute.c: the records that the client sends or receives, each with its
--              serialize_ and deserialize_ functions.
--   Frames     send_buffer, recv_buffer, flush_send_queue and allocate_buffer of src/zk/zookeeper.c.
--              `Packet` and `Incoming` are buffer_list_t on the way out and in. Each call of send,
--              recv or poll is an event that says what the system answers. Queue holds queue_buffer
--              and dequeue_buffer on sequences, Pointers the same on nodes in memory, Linked what it
--              means that nodes stand for a sequence, Refining that the two agree; Emptying is about a
--              socket that goes on taking bytes.
--   Watchers   src/zk/zk_hashtable.c and the result checkers. The table of src/zk/hashtable is a
--              library: `Hashtable` is its operations and what they promise.
--   Paths      isValidPath, prepend_string, sub_string and Request_path_init of src/zk/zookeeper.c.
--   Handshake  serialize_prime_connect, deserialize_prime_response, and the end of the handshake in
--              check_events, with what it calls: Layout is about the bytes, Finishing about the end.
--              `SessionHandle` is the part of zhandle_t that only a handshake sets.
--   Auth       the list of credentials of a handle and auth_completion_func.
--   Session    the requests that wait for an answer: add_completion, dequeue_completion and
--              free_completions, which tells them an error. A completion_head_t is the list from its
--              head to its last entry.
--   Client     the functions that send a request (zoo_awget to zoo_aset_acl). `ZHandle` is the part of
--              zhandle_t that requests and answers use, `submit` what these functions have in common,
--              `Operation` a call of one of them with its arguments. Submitting and Sending are about
--              a request that is sent, Refusing about one that is not. Multi is zoo_amulti on a handle
--              that is not null: `ZooOp` is zoo_op_t, and prepare_results is what it writes into the
--              array of results. MultiParts says what a multi request is to carry, MultiLoop is about
--              the loop, MultiSending about all of it.
--   Replies    what zookeeper_process does with the frames that have come. A `Step` takes a handle and
--              gives a result, the handle and the effects that the program sees, in order: calls of
--              completions and watchers, and synchronous callers that are wakened. Answers holds
--              deserialize_response and deserialize_multi, Completing process_completions and
--              queue_session_event, Sync process_sync_completion, Errors handle_error, Processing the
--              loop of zookeeper_process, Closing zookeeper_close. Triples holds rules about what a
--              step leaves.
--   Credentials
--              zoo_add_auth, and what a connection that is made again sends: send_auth_info and
--              send_set_watches.
--   Timeouts   calculate_interval, zookeeper_interest on an open socket, and send_ping. A time_t is a
--              word of 64 bits and an int one of 32.
--   Tests      the theorems at concrete inputs.
--
-- How the code is modelled. Memory is the list of the bytes of a block; a function that may do an
-- access outside its block, go through a null pointer or overflow a signed int is partial, and `none`
-- is that. Words of 32 and 64 bits are their bit patterns, below 2 ^ 32 and 2 ^ 64; the host is
-- little-endian with pointers of 64 bits. The loop of resize_buffer has 32 rounds of fuel, more than a
-- length of 31 bits can double; all other loops are by recursion on a list or a count of the rounds
-- left, and the loop of flush_send_queue on the events of the socket. Watcher functions and contexts are
-- their addresses. The lists of watchers are values: `freed` says that add_to_list gives an object
-- back, and a list that is moved has left its table.
--
-- What is not modelled. Of src/zk/zookeeper.c: check_events but for the end of the handshake, the
-- connection to a server, the counter of the calls in progress (api_prolog and api_epilog;
-- zookeeper_close takes it as an argument), the synchronous functions, host names and their
-- addresses; these are planned. A callback that calls the client again is not modelled.
-- src/zk/mt_adaptor.c is not in the repository, so the single-threaded adaptor, whose locks are
-- empty, is the one in use. Freeing memory and logging leave no trace in the model, but for an
-- argument of a message that is read through a null pointer. collect_keys is taken to get the
-- memory that it asks for. The table of src/zk/hashtable is another project's library. The PHP
-- binding in src/php, the command line client and the Windows port use the client and are not part
-- of it.
pub mod Prelude
pub mod Codes
pub mod Recordio
pub mod Jute
pub mod Frames
pub mod Watchers
pub mod Paths
pub mod Handshake
pub mod Auth
pub mod Session
pub mod Client
pub mod Replies
pub mod Timeouts
pub mod Credentials
pub mod Tests
