-- ===== src/Lib.antt =====
-- ServerApplication: a chat and game server over TCP and UDP (C++, Boost.Asio) that pools its
-- sessions.
--
-- The program's parts. MessageBufferManager cuts the bytes of a TCP connection into messages
-- with a length prefix. A Session is one connection: it reads through a MessageBufferManager,
-- writes from a queue, has a life cycle that ends in one close, a UDP token and a UDP rate
-- limit. SessionPool keeps the session objects and hands them out again; SessionManager finds
-- the sessions by id and by nickname. DataHandler ties them together: MessageDispatcher calls
-- the handler of a message's type on it, LoginFlow gives a session its nickname and its zone,
-- UDPManager hands it the datagrams, and a close goes through it to the manager, the zone and
-- the pool. A limiter that all UDP threads share bounds the packets of a second. A Zone is a
-- group of sessions that hear each other. DBMiddlewareClient holds the connection to the DB
-- middleware, with the same framing, and DBmwRouter matches answers to the requests that it sent
-- through that connection.
--
-- Files and what they model, with the paths of the repository:
-- - Common and its children: shared names, tests, lists, maps, integers.
-- - Framing: ServerApplication/MessageBufferManager.cpp (append, extract_message, clear), the
--   prefix written by Session::do_write_queue and DBMiddlewareClient::send_framed, and the loop
--   over extract_message in Session::do_read (drain, receive). Children: Prefix (the bytes of a
--   length), Scan, RoundTrip, Extract, Chunks and Resync.
-- - Session: ServerApplication/Session.h and ServerApplication/Session.cpp. Children: Queues
--   (write queue, task queue, read flag) and Udp (endpoint, token, rate limit) hold more of the
--   code; Life, Race (try_close in any number of threads), Writes and Backlog (the write queue)
--   and RateLimit (checkUdpRateLimit) the proofs.
-- - Pool: ServerApplication/SessionPool.cpp. Children: Leases (who holds which session), Reuse
--   (what a session object carries from one client to the next).
-- - Manager: ServerApplication/SessionManager.cpp. Children: Shards, Visits, Nicknames.
-- - Json: what the code uses of nlohmann::json, as an interface with one law (an object gives
--   back its text entries).
-- - Router: ServerApplication/DBmwRouter.h and ServerApplication/DBmwRouter.cpp; `expire` is the
--   callback of the timer that arm_timeout_locked arms. Children: Calls (send_request,
--   send_request_cb, expire, handle), Decimal and RequestIds (make_req_id,
--   extract_session_id_from_req), Moves, Invariant and Requests (whole histories), Attempts
--   (timeouts and retries), Callbacks (who calls on_ok and on_error), Answers (handle).
-- - Client: ServerApplication/DBMiddleWareClient.h and ServerApplication/DBMiddlewareClient.cpp;
--   the `on_` operations are the callbacks of the asynchronous calls. Children: Acks (the
--   callbacks in ServerApplication/Handlers/DBmw), Reconnect, Writes.
-- - Zones: ServerApplication/Zone.cpp, ServerApplication/ZoneManager.cpp and
--   DataHandler::assign_session_to_zone. Children: Capacity, Membership.
-- - Limiter: UdpRateLimiterShard and sharded_udp_rate_limit of ServerApplication/Utility.h, for
--   calls that do not overlap. Children: Steps has the atomic operations of a call one by one,
--   and schedules of calls that overlap; Second, Alone, Overlap, Moves and Bound the proofs.
-- - Server: the parts in one state, as ServerApplication/ServerApplication.cpp puts them
--   together: ServerApplication/DataHandler.h and remove_session and the broadcasts of
--   ServerApplication/DataHandler.cpp, with Session::close_session and Session::post_write over
--   them. Sessions: do_read, the login timer, keepalive and clean-up,
--   ServerApplication/Server.cpp. Login: ServerApplication/UseCases/LoginFlow.cpp. Messages:
--   ServerApplication/MessageDispatcher.cpp, ServerApplication/MessageHandlers and the read
--   callback of do_read. Flood, Packets and Datagrams: on_udp_receive, udp_broadcast and the
--   count of bad packets, ServerApplication/UDPMessageHandlers, and
--   ServerApplication/UDPManager.cpp. The proofs: Books (the invariant that ties pool and
--   manager together), Opening, Closing, Upkeep, Serving and Quiet (each operation keeps it),
--   Run (whole histories), Buffers and Draining (the loop of a read ends), Trace, Keepalive,
--   Nicknames, Lingering, Strangers, Registration, Blocking.
-- - Examples: the modelled code at concrete inputs.
--
-- Time is the count of nanoseconds of a steady_clock time point and an argument of the
-- operations that read the clock. What an operation sets off outside its own state (a write that
-- starts, a timer that is armed, a session to close) is part of its result. 64-bit counters wrap
-- round at 2^64. Three functions run on fuel: drain has one round for each byte and one more,
-- and each message takes at least five bytes; take_messages, the same loop with the handlers in
-- it, has as many; decimal_digits has one round more than the number, and each round divides it
-- by ten.
--
-- In the server's model a handler runs to its end before the next begins, and reads the clock
-- once. The pool never drops a session, so a weak pointer to one is its index and never expires.
-- What goes out (writes, datagrams, timers, requests to the DB middleware) is appended to a list
-- of outputs. The random token and the shard of the calling thread are arguments.
--
-- Parameters. The floating-point product in checkUdpRateLimit is a parameter that never exceeds
-- the exact product. JSON values, and the texts that they are dumped to, are parameters. Whether
-- an injected send function throws is an argument of each step.
--
-- Not modelled: sockets, timers and the executor themselves; logging, configuration and
-- start-up; handlers that overlap (two threads in DataHandler at once; only try_close and
-- sharded_udp_rate_limit are modelled with calls that overlap); what DBmwRouter sends for
-- LoginFlow, which is an output of the server's model; MessageDispatcher::dispatch_udp and
-- Zone::broadcast's sends, which nothing reaches; the exceptions of a handler other than a
-- type_error.
pub mod Common
pub mod Framing
pub mod Session
pub mod Pool
pub mod Manager
pub mod Json
pub mod Router
pub mod Client
pub mod Server
pub mod Zones
pub mod Limiter
pub mod Examples
