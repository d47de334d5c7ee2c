-- ===== src/Lib.antt =====
-- Models of GPush, a push service in C++: an event-driven network library (efnfw), a connection
-- server that clients and push servers log in to (connect_server), a push server (push_server), and
-- what they share (head, proto, common).
--
-- A connection receives bytes into a LoopBuf, a chain of frames, takes whole packets off it and hands
-- each to its handlePacket; what it sends waits in a second LoopBuf while the socket is not writable.
-- The connection server's connections log in, get a session id that names the server, the event loop
-- and the connection in base64, and pass a push request or response to the connection that its session
-- id names, as an operator on that connection's event loop. The connections of push servers are also
-- kept in a list, and clients' sessions in a cache.
--
-- Files, and the code that each models:
--
--   Prelude            tests on numbers, lists, bytes, and an int32 as its bit pattern
--   Base/LoopBuf       efnfw/base/ef_loop_buf.{h,cpp}; Frames is struct frame. The circular list from
--                      m_head is cut at m_w_pos into the frames before it (done), it (cur) and those
--                      behind it (spare). Invariant says when a chain is well formed and what it
--                      holds; Write, Extend, Resize, Read, Rounds, Search and Receive are proofs.
--   Base/Base64, Hex   efnfw/base/ef_base64.cpp, ef_hex.cpp
--   Proto              head/msg_head.h, connect_server/src/common.{h,cpp} and
--                      push_server/src/logic_common.cpp: packets, their length check, session ids
--   Net/Connection     efnfw/net/ef_connection.cpp: handleRead; Send has sendMessage, doSend,
--                      handleWrite and safeClose. Stream is what a connection should hand on from a
--                      stream of bytes (Delivery: of whole packets), Receive compares handleRead with
--                      it; Sent, Order and Wire are about sending.
--   Net/EventLoop      efnfw/net/ef_event_loop.cpp and ef_operator.cpp: connections by id and the
--                      operators (Ops: the queue of pointers to them; Wake: the flag and the control
--                      socket as steps of the loop and of other threads; ConMap, Lookup, Sleep: proofs).
--   Net/Client         efnfw/net/ef_client.{h,cpp} and the notifications of ef_device.cpp (States: a
--                      proof)
--   Net/Timer          efnfw/net/ef_timer.{h,cpp} and the event loop's set of timers (Restart: a
--                      connection's timers; Order, Due: proofs)
--   Base/Loader        efnfw/base/ef_loader.h (Fresh: a proof)
--   Connect            connect_server/src: TypeMap is type_map.{h,cpp} (Turns: proofs), Client is
--                      client_conn.{h,cpp} (Messages: the protobuf messages; Login, Push, Packet: the
--                      handlers; Posted: SendMsgOp; Change, Effect, Registered, Routing, Session:
--                      proofs), ErrNo is head/err_no.h
--   Push               push_server/src: Server is server_conn.{h,cpp} and the map of server_manager.cpp
--                      (Linked, Steps: proofs), Manager the choice of servers in server_manager.cpp
--                      (Address, Listed, Choice: proofs), Listen is listen_conn.{h,cpp} (Deliver: a proof),
--                      PackLen both checkPackLen, and EndToEnd follows a push to its client.
--   Sdk/RingBuf        clientsdk/client/ef_loop_buf.{h,cpp}, the client library's receive buffer (Places
--                      says which bytes it holds; Queue, Array, Write, Resize: proofs)
--   Sdk/Sock           clientsdk/efnfw/net/ef_sock.cpp: tcp_nb_receive and tcp_send (Answers: proofs)
--   Sdk/Client         clientsdk/client: client_conn.{h,cpp} and the operators of ops.{h,cpp}; Packets is
--                      handleRead and the handlers of packets, Loop the event loop of eventloop.cpp with
--                      process and OnTimeout of the operators, Steps the loop step by step. Receive, Round,
--                      Deliver and Pushed are about what is received, Posted, Sound, Handlers, Calls, Fine
--                      and Ended about connections that have ended, Relogin about a login in a callback,
--                      Waiting about the wait in select; SmartOp is opbase.cpp's count of references, Timeval
--                      how times compare.
--   Common/SessCache   common/src/sess_cache.cpp: Entries is about one cache's hash, Distinct about the
--                      sessions of several caches
--   Common/Watcher     common/src/zk_watcher.cpp, common/include/data_watcher.h and the callbacks of
--                      common/src/zk_client.cpp (Blind: proofs)
--
-- Bounds. A byte is a number below 256 and an int32 its bit pattern below 2^32; a head lies in memory
-- low byte first. Sizes of buffers are taken to stay below 2^31, and sizeof(frame) to be 32, as on
-- 64-bit machines. READ_ALL is not defined, as in the build files.
--
-- Fuel. LoopBuf::read may go round its frames for ever, so it takes a number of rounds; two more
-- than the frames before m_w_pos are enough for no more bytes than are there. The packet loop of
-- handleRead takes a round for each byte in the buffer and one more: a packet has at least 12.
-- doSend takes a round for each byte that waits and one more, since it goes on only after it has
-- sent something. processOps takes a round for each operator that is queued and one more; a round
-- of processTimers runs as many timers as the code lets it. The client's handleRead takes a round
-- for each byte that has come and one more to receive, and one for each byte in its ring and one more
-- for the packets; its processOps runs as many operators as it is given rounds, or gives none. What the kernel answers to calls of
-- send is a list; a handler that has used it up has not returned.
--
-- Not modelled. Frames are not freed, so memory is not a bound. Protobuf, jsoncpp, the clock,
-- sockets, and for the handlers the session cache, are parameters; calls that register events with
-- epoll succeed for an open descriptor; locks make each operation one step. Logging, timing and the
-- statistics are left out, and so are starting the servers, reading their configuration, the
-- acceptor and the listening sockets, which are calls of the system, and the Redis commands and the
-- lists of servers that watchers parse, which are calls of other libraries. What ZooKeeper answers is
-- an input of the watcher. Of the client library the thread's start and stop and its control socket are left
-- out. The test clients, the Android client and code from elsewhere (protobuf, jsoncpp, AES, MD5,
-- Redis and ZooKeeper clients) are not part of it.
pub mod Prelude
pub mod Base
pub mod Proto
pub mod Net
pub mod Connect
pub mod Common
pub mod Push
pub mod Sdk
