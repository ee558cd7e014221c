-- ===== src/Lib.antt =====
-- Verification library of cFrameworkToServer, a C server on sockets: clients send frames that
-- hold JSON requests, a route picks the handler by name, and the handlers work on caches and on a
-- MySQL database. Paths are from the repository's root.
--
-- The parts and how they meet:
-- Random: cFrameworkToServer/utils/random.c. The state of the generator is a record of its seven
--   16-bit words; srand_next, srand_get_int32, srand_get_limit_int32 and srand_get_uuid are
--   functions on it.
-- Basic: cFrameworkToServer/utils/basic.c and basic.h: byte order, hexadecimal text, string
--   hashes, Trim.
-- Memory: buffers as lists of bytes, with reads and writes that fail outside the buffer.
-- Frame: cFrameworkToServer/utils/socket_server.c and cFrameworkToServer/utils/en_de_crypt.c:
--   getSocketSendBuff and encryptData build a frame in a buffer, isRecvOK recognises one,
--   parseRecvBuff and decryptData take it apart.
-- Receive: the loop of aeSocketRead in cFrameworkToServer/utils/socket_server.c, which gathers a
--   frame with isRecvOK.
-- Text: the C string functions that the rest calls.
-- Errors: cFrameworkToServer/utils/error.h and error.c. Json: cJSON as an interface, and the
--   loops over it.
-- Sql: cFrameworkToServer/utils/mysql_basic.c, the statement skeletons and getWhereOrSetString,
--   which the tables share.
-- User, Notice, AppVer: cFrameworkToServer/src/model/user.c, notice.c and appVersion.c. Store has
--   the SQL functions, Convert the JSON functions and updateObj, Texts the sizes of the SQL texts.
-- Cache: cFrameworkToServer/src/service/cache.c over an interface of the hash table, with its
--   laws in Cache.Laws.
-- Gateway: cFrameworkToServer/src/service/massage_gateway.c.
-- Service: cFrameworkToServer/src/service/service_basic.c and service.c. A handler is a function
--   from the server's state to the state behind it; Sessions has userStatus, userLogout, userModify
--   and userDelete, Verify has verifyBefore and verifyAfter, Account has userRegister and
--   userLogin, Feed has noticeGet, appVer and loadCacheNecessary; Routes has regist_service and the
--   table of routes. Reach has the step relation of requests, Guards what the handlers let through.
-- Pool: cFrameworkToServer/utils/memory_pool.c: the columns of the memory pool, MALLOC_INIT,
--   MALLOC and FREE. Lending has the program's calls of them in any order, Setup
--   memoryPoolInit and memoryPoolUnInit.
-- Queue: the list of cFrameworkToServer/utils/basic_struct/list.c as an interface with laws.
-- ThreadPool: cFrameworkToServer/utils/thread_pool.c. Steps has the workers, the threads that add
--   tasks and the one that destroys the pool as a step relation; a critical section is one step.
--   Order has the first-in, first-out queue that the pool refines, Ending the shutdown.
-- ConnectionPool: cFrameworkToServer/utils/mysql_connection_pool.c. Loop has the loop of
--   mysqlConnectionPool_GetOneConn for what each of its rounds meets, Lending the threads that take
--   and give back connections, Setup the two ends of the pool.
-- Dispatch: handle_received_data, json_handle, stream_handle and socketWrite of
--   cFrameworkToServer/utils/socket_server.c: they join Frame and the routes of Service.
-- Config: cFrameworkToServer/utils/config.c over an interface of the hash table; Reads has what
--   fgets gives for a file of lines, Lines the file of key=value lines that is read back.
-- Log: cFrameworkToServer/utils/log.c. A message goes through the list to the file of the day;
--   Drain has the way of the messages from log_print on.
-- Start: cFrameworkToServer/src/main.c up to the event loop: Config, Pool, ThreadPool, Log,
--   ConnectionPool and the routes of Service, one after the other.
-- Tables: the SQL texts of the three tables together.
--
-- Undefined behaviour of the C code (an access outside an array, a NULL string, a pointer to a
-- wrong type, memory that was freed) is the value `none`; only a memcpy whose ranges overlap goes
-- on, with the result that the parameter gives. Numbers are natural numbers with the wrap-around
-- written out, or integers where a C int may be negative; time(0) is taken to be in the range of
-- an int. Loops are recursion on lists or on a count. `digits` has fuel ten, which is enough for
-- the ten digits of an int, and `file_reads` a round for each byte of the file and one for its
-- end, since each round but the last reads a byte. atoi stops at the ends of an int, as in the
-- library that the program is built with.
--
-- Parameters, since their code is no part of the program or cannot be read: the MySQL client and
--   server, cJSON, Redis's hash table and list, pthread, OpenSSL's block cipher, what memcpy does to
--   ranges that overlap, time(0), and the bytes of the stack that srand_get_uuid never writes.
--
-- A handler is one step on the server's state, and requests come one after the other; the order of
--   single operations of two handlers on the caches is not modelled.
--
-- Not modelled: the event loop, the sockets, which only call the system and other projects' code,
--   the exit of main, and the wrappers of hashes and RSA. Locks are not modelled as such: what
--   they cover is one step.
pub mod Base
pub mod Random
pub mod Basic
pub mod Memory
pub mod Frame
pub mod Text
pub mod Sql
pub mod Errors
pub mod Json
pub mod User
pub mod Notice
pub mod AppVer
pub mod Tables
pub mod Cache
pub mod Gateway
pub mod Service
pub mod Pool
pub mod Queue
pub mod ThreadPool
pub mod ConnectionPool
pub mod Dispatch
pub mod Config
pub mod Log
pub mod Receive
pub mod Start
