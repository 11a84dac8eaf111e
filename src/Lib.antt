-- ===== src/Lib.antt =====
-- Models of hiaux, a C++ library for network servers, and proofs about them.
--
-- The program. A server of network/HttpServer keeps one HttpConnection for a client: it reads the
-- socket, hands the bytes to an HTTP parser (or, behind an upgrade, to a custom parser), queues
-- the requests, and sends the responses that the handlers leave. HttpRouter chooses a handler by the
-- path, and the handler of an HttpApi checks and dispatches a call of a method. The binary API is a
-- custom protocol on the same connection: frames of a decimal size, a newline and a body, with "k" as
-- keepalive. Its client is network/HttpApi/BinClient, its server's parser network/HttpApi/BinServer.
-- The helpers of strings/string_utils.cpp serve all of them. The thread pool and the task launcher of
-- threads run the work; HttpOutRequestDisp makes its requests to other servers through such a launcher
-- and an asynchronous client on libcurl.
--
-- The modules.
-- Base: shared names, lists measured by native numbers, byte strings, and Base.Dict, the association
-- list that stands for a std::map with string keys.
-- Text: std::string's find and find_last_of, and the C library's decimal conversions.
-- Strings: strings/string_utils.cpp. Numbers has the conversions, Split and Runs `split`, Spaces the
-- trimming, Escape `escape_symbol`, Utf8 the UTF-8 helpers, Utf8.Words `splitUtf8` and `getBigrams`,
-- FileNames the extensions, Replace and Domains replacing and `invertDomain`, Query `parseGET`,
-- Cookies `parseCookies`.
-- Framing: the frames of the binary API as a reader of one byte at a time, the description
-- that both parsers are compared with.
-- BinServer: network/HttpApi/BinServer/Parser.cpp, and the loop of HttpConnection that drains it.
-- BinClient: network/HttpApi/BinClient/Parser.cpp (BinClient.Parser) and Connection.cpp
-- (BinClient.Connection) and the pool of connections of BinClientA.cpp (BinClient.Client); each
-- operation is a function from the connection to an outcome that has the exception, if one is thrown,
-- and a log of the callbacks.
-- Delivery: the client's output as the server's input.
-- Http: network/HttpServer/Connection.impl and ConnectionParsing.impl. Http.Input reads, Http.Output
-- renders and sends.
-- HttpServer: network/HttpServer/HttpServer.impl. Loop has the handlers of the sockets, Responses the
-- queues, Events an event of any kind; Handling, Pacing, Rounds and Steps are about the
-- calls of handlers and the responses of a connection, Fuel, Spending and Ending about the rounds of the
-- loops.
-- Threads: threads/threadpool.cpp (Threads.Pool), whose threads and callers are interleaved in any order,
-- threads/tasklauncher.cpp (Threads.Launcher) and threads/locks.cpp (Threads.Locks), whose calls are steps.
-- HttpAsync: network/HttpClientAsync.cpp over libcurl. OutRequests: network/HttpOutReqDisp.cpp over it,
-- whose tasks run in any order; Delivered compares the answers with the calls.
-- RegularTask: tools/RegularTask.cpp.
-- Router: network/HttpServer/HttpRouter.impl.
-- LoadConf: loadconf/loadconf.cpp.
-- Api: network/HttpApi/HttpApi.impl.
-- ApiClient: network/HttpApi/HttpApiClient.cpp.
--
-- Correspondence. A class is a record of its members, a method is a function of the same name in
-- this spelling, which returns the new record. What a system call returned is an argument of the
-- operation that makes it, and a sequence of calls is a list of events. A std::string is the list of
-- its bytes. Handlers and callbacks are numbers; what they do is an argument.
--
-- Fuel. The server's parser goes round its loop once for a byte and recurses on its token. The loops
-- that take requests or responses out of a parser have the length of the token plus two as fuel, more
-- than the frames that it can hold: each turn takes a newline off the token. The fuel of the client's
-- loop of `recv` is an argument, larger than the number of the parts that are read. The loop over a
-- configuration's variables has the length of the text plus one, and each turn takes a variable off.
-- A loop over the symbols of a UTF-8 string has the string's length, and each symbol has a byte. A
-- number is printed with itself plus one as fuel, more than it has digits. The server's loop over the
-- responses of custom protocols has one round more than the waiting responses and, for each waiting
-- request, the most responses that its handler sends and one: an upgrade or a handler adds responses,
-- and it takes a request. The fuel of `replaceString` is an argument, since the
-- loop of the code need not end.
--
-- Arguments of the models. The environment and the JSON library, the value that a variable has which
-- `sscanf` leaves unset (taken to depend on the text alone), the digest of crypt/sha1.cpp, the decoding of a POST body (base64 and
-- protobuf), libcurl's unescaping, the UTF-8 library, the HTTP parser with its callbacks, a custom
-- parser, and the returns of the socket calls.
--
-- Not modelled: the other clients on libcurl, the waiting in the loop around the asynchronous one,
-- the automaton of AhoCorasick.cpp, the daemon, the event watchers, the database and the logs,
-- and the copies of other projects in crypt and thirdparty.
pub mod Base
pub mod Text
pub mod Strings
pub mod LoadConf
pub mod Framing
pub mod BinServer
pub mod BinClient
pub mod Delivery
pub mod Http
pub mod Router
pub mod Api
pub mod HttpServer
pub mod Threads
pub mod RegularTask
pub mod ApiClient
pub mod HttpAsync
pub mod OutRequests
