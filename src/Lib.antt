-- ===== src/Lib.antt =====
-- The server of JiraGame, a game for two teams of three over TCP: the accounts, the rooms, the running
-- game and the heartbeat. All paths below start at DNW_Server/Server.
--
-- A client is a socket. `Cache` has an entity for each client and all the rooms; a client sends a
-- packet for a scene, and the scene changes the cache and sends replies through the event system,
-- which has an observer for each socket. The scenes are singletons that share this state. A timer for
-- each client counts the heartbeats that are missing, and in the end removes the client.
--
-- Which module models what:
--   Base           shared names: tests on numbers, lists, `std::map`s, 32-bit words and texts.
--   Proto          the messages of ../protoc/proto/scene.txt and command.txt, as their accessors read.
--   Messages       the generated classes of ../include/protoFiles, one module for each message. Parser is
--                  the loop of every MergePartialFromCodedStream, with the cases of a class as a table;
--                  Writer, Sizes and Class have what the lines of SerializeWithCachedSizes, ByteSizeLong
--                  and MergeFrom do. Coded is the part of protobuf's runtime that is used, a parameter.
--                  In each class, Format says that it reads back what it writes (`Codes`). View has the
--                  accessors, which give the requests of Proto; `parse_request` is ParseFromArray, and
--                  Requests follows the bytes of a packet to its scene. SendBuffer is the end of the
--                  handlers, where a packet is written to the array sendBuffer.
--   Cache          Cache/Cache.cpp, and the fields of ClientEntity/ClientEntity.h (`Entity`). A write
--                  through a pointer that `GetEntity` or `FindEntityRoom` returned is `set_role_info`,
--                  `modify_entity` or `modify_room`. Laws and EveryRoom are about it.
--   World          the whole state: the cache, the observers, the infos of the heartbeat with the heap
--                  they lie on, `preTime`, the stream of `rand()`, and all that `send` was given.
--   Utl            int2String, string2Int and GenrateRandomID of Utl/Utilitys.cpp.
--   JiraEvent      JiraEvent/JiraEvent.cpp, with NotifyClient and BroadcastNotifyClient of
--                  ClientEntity/ClientEntity.cpp.
--   Hall           GameLogic/SceneChain/HallScene.cpp: `hall_logic` is `hallLogic`. RoomId is
--                  GenrateOnlyRoomID, Create is CreateRoom, Seats and Join are JoinRoom, JoinTeam is
--                  RequestTeam and JoinTeam, Leave is LeaveRoom, Ready is GameWaite and GameStart, and
--                  Listing is OnlineFriend and GetRoomList.
--   MainScene      GameLogic/SceneChain/MainScene.cpp: Rsync is RsyncAttr and RsyncStatus.
--   KeepAlive      GameLogic/SceneChain/KeepAlive.cpp, with the timer of ClientEntity.cpp.
--   Server         Server/Server.cpp: the acceptance of a client in StartCServer, and the closing of a
--                  socket in WorkerThread.
--   Db             DBServer/DBServer.cpp: the texts of the SQL statements, and in Calls the functions
--                  that run them. Library is the part of sqlite that is used, a parameter.
--   Accounts       GameLogic/SceneChain/LoginScene.cpp, RegisterScene.cpp, CreateScene.cpp and
--                  SelectScene.cpp, one module each; Rows is the loop over the rows of a statement that
--                  they share, Statements is about the statements that they get and give back, and
--                  Returning about the calls that return.
--   Scenes         GameLogic/SceneFactory.cpp: `process_msg_logic` is ProcessMsgLogic, with the Start of
--                  the scenes, and `msg_distribute` is MsgDistribute of ClientEntity.cpp. Access is about
--                  a login and what it opens, Events says which events of Rooms the messages are.
--   Worker         the loop of WorkerThread in Server/Server.cpp, with the receive buffers: `worker_round`
--                  is one round. Messages is about what reaches the parser, Turns about the turns of a
--                  round, and Runs about any sequence of rounds of the three kinds of threads.
--   Rooms          proofs on what holds of all rooms. Stores says, for each message of the hall, which
--                  rooms it puts into the cache; WellFormed and Balance are two such properties. Events
--                  is the relation of one event on the state, and what it leads to; Game and Heartbeat
--                  are its parts for the running game and the timers. Online and Total are about calls
--                  that return, Total for each message of the hall. Lobby is the abstract view, which
--                  forgets order, seats and control: for each room, how often each role is in it, with
--                  the five steps that a player can make (`LobbyStep`), the three of them that a timer
--                  can make (`Departs`), and the end of a game (`Ends`). Play is about the events of any
--                  run, Growth about who gets a place, and Overlap about two departures at once.
--   Session        proofs on the check of the session id.
--   Tests          the theorems at concrete inputs.
--
-- How the code is modelled. A function of the server that writes is a function from a world to a
-- world. It returns an Option where the code may use a null pointer, index out of range, write to
-- freed memory or exhaust the stack: `none` is then the end of the process. An `int32` is its bit
-- pattern, below 2 ^ 32, and `+ 1` and `- 1` wrap around. A `float` is a bit pattern that is only
-- copied. Text is a list of bytes. A `std::map` is an association list in the order of the keys, and
-- `operator[]` inserts a null pointer where the source's does. The replies of the hall keep which of
-- their fields are set; for a player's fields only the value that the accessor returns is kept. A
-- handler or one round of a timer's loop is a whole step: of threads that meet inside a handler, only
-- two departures are modelled.
--
-- Bounds and fuel. The loops through iterators in JoinRoom have 8 rounds for three seats and 4 for
-- two teams: the ids and the keys are distinct, so a scan erases at most once, starts again at most
-- once, and ends in fewer rounds. GenrateOnlyRoomID recurses until an id is free; the depth of the
-- stack is a field of the world. `atoi` of a number out of range is the nearest `int`, as in the C
-- library that the server is built with.
--
-- The loops over the rows of a statement take fuel, and return `none` where it does not suffice: one
-- more than the rows of the statement is enough. A round of the worker has as many turns as there are
-- sockets at its start.
--
-- What is not under the repository's code is a parameter: sqlite (`Sqlite`: its calls, on a state of
-- its own), `strcpy_s`, and the runtime of protobuf (`Coded`). The worker takes any parser;
-- `parse_request` is the one that it has. What is assumed of them is a hypothesis where it is used:
-- that protobuf's runtime reads back what it writes (`Lawful`) and goes forward as it reads
-- (`Forward`), that sqlite3_prepare_v2 gives NULL after an error, that a statement has finitely many
-- rows, that the row that a creation or a selection of a role reads has a name, and that strcpy_s
-- copies a text that fits in, with its NUL byte.
-- `unreleased` of `DbServer` is not in the source: it counts the statements that sqlite has handed
-- out and not got back.
--
-- The loop of a parser has one more round than there are bytes: each round takes a byte at least.
--
-- The handlers hand on packets, and not the bytes that SendBuffer makes of them. The array sendBuffer
-- is a text of 8192 bytes.
--
-- Not modelled: of the generated code, the check of required fields, whose result the server ignores,
-- the writing to an array, which repeats the writing to a stream, and what no packet of the server
-- uses; log output; the set-up of the listening socket and of Winsock; the unused GeneralSend; the
-- conversions of wide strings in Utl/Utilitys.cpp; the copies of protobuf, cJSON and the sqlite
-- header. What `select` and `recv` give in a round is an argument of the round.
pub mod Base
pub mod Proto
pub mod Messages
pub mod Cache
pub mod World
pub mod Utl
pub mod JiraEvent
pub mod Hall
pub mod MainScene
pub mod KeepAlive
pub mod Rooms
pub mod Server
pub mod Db
pub mod Accounts
pub mod Scenes
pub mod Worker
pub mod Session
pub mod Tests
