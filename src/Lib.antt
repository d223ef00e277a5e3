-- ===== src/Lib.antt =====
-- ZamTok is a chat server over HTTP with a terminal client. Each request is one HTTP message, whose
-- JSON body the server searches for string fields; users, friends and rooms are kept in Redis.
--
-- The parts, and the files that model them:
--   * CString: the functions of <string.h> and <stdio.h> that the code calls, on lists of bytes without
--     NUL. A pointer into a string is the rest of the string from there on, and NULL is `none`.
--     CString/Search has the laws of `strstr`, `strchr` and `strcmp`, CString/Format those of `snprintf`
--     and `%d`, CString/Tokens those of `strtok` and of trimming.
--   * Outcome: what a call comes to that can run on or write behind an array.
--   * Codes: statuses, error codes, return codes and array sizes (src/SERVER/zt_http.h,
--     src/SERVER/zt_common.h, src/common/zt_chat.h, src/SERVER/zt_util.c).
--   * Util: responses and JSON fields (src/SERVER/zt_util.c). `generate_response` returns the response,
--     with the outcome of `malloc` as an argument. The offset and the length that
--     `msg_get_json_string_field_helper` returns are the value itself.
--   * World: what lies outside: Redis behind hiredis, `write`, `malloc` and `time` are the fields of a
--     `Platform`. A `World` is the database, whether `g_redis_ctx` is connected, and the messages that
--     were handed to `write`, in order.
--   * Redis: the commands of src/SERVER/zt_redis.c, as the words that hiredis sends, and the reading of
--     the replies. Redis/RoomList is `redis_room_list`, the loop over the pages of SCAN, with connecting
--     and disconnecting. `IsRedis` of Redis/Laws states the documented behaviour of the commands, on which the
--     theorems about the database rest; Redis/Laws/Model is a database that has it. Redis/Families has the
--     families of keys with the type that each has, and Redis/Issued every command that the server sends, and
--     what a call leaves as it is: every property of the database that the commands keep.
--   * Socket and Hdl: `socket_send` (src/SERVER/zt_socket.c), and src/SERVER/zt_hdl.c: sending in Hdl/Send,
--     `hdl_header_mime` and `hdl_header` in Hdl/Header, and in Hdl/Request `hdl_socket`, which reads a
--     request, and hands it to its handler by its URI and method.
--   * Http: the request handlers of src/SERVER/zt_http.c. A handler is the step that reads the request and
--     works on the database (`join_steps`), which may leave by `goto next` with a status and an error code
--     (Step), and then `respond`, the code behind the label. What follows the reading of the fields is a
--     step of its own (`join_user`). Http/Members is about member lists, Http/Users/Accounts about sign-up
--     and login, Http/Rooms/Stored, Opened, Creation, Access and Invited about rooms, and
--     Http/Lists about the list of friends, and Http/RoomIds about the ids of rooms.
--     Http/ListRooms is `http_list_rooms`. Http/Quiet and Http/Kept are about what no handler changes.
--   * Ctx: the list of clients (src/SERVER/zt_ctx.c). A linked list is the list of its nodes, and what
--     `calloc` and the mutex return are arguments.
--   * Loop: `hdl_accept` of src/SERVER/zt_hdl.c and the body of the loop of `socket_event_loop`
--     (src/SERVER/zt_socket.c): `handle_event` is one event that epoll reports, and `Reach` what the turns
--     of the loop lead to. A `Server` is the state of the process: the list of clients, the bits of
--     `g_client_fd`, the descriptors that epoll watches, the listening socket among them, those that
--     were closed, and the world.
--     Loop/Waiting is the loop itself, over what `epoll_wait` reports, and `socket_accept`.
--   * Start: the start of the server (src/SERVER/zt_main.c and the making of its socket in
--     src/SERVER/zt_socket.c), up to its loop. What the system calls return is a `System`.
--   * Chat: the requests of the client (src/CLIENT/zt_chat.c, src/CLIENT/zt_sock.c); what is handed to
--     `write` is returned beside the code. Chat/Routed is about where the server hands them to.
--   * Ctrl: the client's terminal (src/CLIENT/zt_ctrl.c). A `Client` is the bytes left on stdin, the id that
--     is logged in, the socket, and what was sent and printed; a question (`Ask`) returns `none` where the
--     code returns -1. Ctrl/Members reads member lists, Ctrl/Commands has the interactive functions and
--     `CTRL_proc`, Ctrl/Menu the tables, Ctrl/Handler the splitting of a line and the loop.
--   * Connect: the client's connection: src/CLIENT/zt_main.c, src/CLIENT/zt_evt.c, connecting in
--     src/CLIENT/zt_sock.c, and the printing of responses in src/CLIENT/zt_hdl.c, as a list of acts.
--   * Host: the functions of src/CLIENT/zt_hdl.c and src/CLIENT/zt_ctx.c that serve clients, which the client
--     carries along and does not call.
--   * Queue: the bounded queue of src/SERVER/zt_queue.c. The memory is a heap of numbered cells, which
--     `malloc` gives out and `free` takes back, so that a pointer to a freed node is told from any other. The
--     mutex and the semaphores are the fields of a `Threads`, whose documented behaviour is `IsPosix`
--     (Queue/Posix), with an instance.
--   * Session: the client and the server together: what is typed, sent, read, routed, stored and answered.
--     Session/Wire is a request on the wire, Session/Answered what it comes to, Session/Served a sign-up
--     and a login over the socket, Session/Rooms a room that is opened, and Session/Opened the same over
--     the socket.
--   * Tests: the theorems at concrete inputs, those about rooms in Tests/Rooms,
--     about lists in Tests/Lists, and about the server's routing, clients and loop in Tests/Server,
--     about the terminal in Tests/Terminal, about the start of the programs in Tests/Starting, about
--     typed databases in Tests/Typed, about Host in Tests/Host and about Queue in Tests/Queues.
--
-- The loops of the code run over strings and over lists of tokens or of replies, so the definitions are by
-- recursion on those. `strtok` is the list of all its tokens. `decimal` has a fuel of one more than the
-- number: each digit takes one step and divides the number by ten.
--
-- The loop over the pages of SCAN ends only if Redis lets it: its fuel is the number of pages, and `ScanEnds`
-- states that each new cursor leaves fewer slots, so that more fuel than the slots left at the cursor "0" is
-- enough. The loop of `hdl_header` has a fuel of one more than the bytes of the request, of which each round
-- takes at least one. The loops of the terminal have one more than the bytes left of the input, of which each
-- round takes at least one.
--
-- The fuel of `HDL_SOCKET` in Host is one for each read; three more than the reads up to the last that brings
-- bytes are enough. The fuel of `destroy_queue` is one for each call of itself or of `is_empty` that
-- cannot read the semaphore; no theorem depends on it.
--
-- Not modelled: logging, which has no effect on what is sent or stored; the branch of `EventLoop` in
-- src/CLIENT/zt_evt.c that is taken with `is_client` cleared, which nothing does, and the empty `HDL_CREATE`;
-- the access tokens of README.md, which no code issues; the applications in C# beside the C program; src/SERVER/zt_conn.c, two unfinished calls of the client of
-- MySQL, which the server's build leaves out. The build leaves out src/SERVER/zt_queue.c too, and no header
-- declares its types, so `address_info_t` and `MAX_QUEUE` are parameters of Queue.
pub mod Prelude
pub mod CString
pub mod Codes
pub mod Util
pub mod Step
pub mod Outcome
pub mod World
pub mod Redis
pub mod Socket
pub mod Hdl
pub mod Ctrl
pub mod Connect
pub mod Host
pub mod Ctx
pub mod Queue
pub mod Loop
pub mod Start
pub mod Http
pub mod Chat
pub mod Session
mod Tests
