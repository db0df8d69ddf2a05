-- ===== src/Lib.antt =====
-- The core of chaonet, a reactor library for TCP after muduo: byte buffers, channels, the epoll
-- poller, the event loop and its timers, connections, the connector, the server and the client; and of
-- its examples, the HTTP server, the sudoku server with its solver, the SOCKS proxy with its tunnel,
-- and the codec of protobuf messages.
--
-- How the parts interact. A Channel holds what one descriptor is interested in; EPoller tells the
-- kernel about it and marks the channels whose events came; a TcpConnection owns a channel and two
-- Buffers and moves bytes between them and the socket; a Connector makes the descriptors of a client.
-- Everything runs in the thread of one EventLoop, to which other threads hand functors; its TimerQueue
-- is a channel over timerfd. A TcpServer takes descriptors from its Acceptor and gives each connection a
-- loop of the Pool; a TcpClient takes them from its Connector. The examples are callbacks on messages.
--
--   Common      shared names, tests, lists, faults, 64-bit arithmetic, maps
--   Buffer      chaonet/include/Buffer.h, chaonet/src/Buffer.cpp, and the byte order of
--               chaonet/include/SocketsOps.h. The vector is a list of bytes, the indices are
--               numbers, and the arithmetic of size_t wraps at 2^64
--   Channel     chaonet/include/Channel.h, chaonet/src/Channel.cpp. The flags of poll(2) are a number
--   EPoller     chaonet/src/EPoller.cpp, chaonet/src/EPoller.h. A channel's address is a number, and a
--               store maps it to the channel. The kernel's epoll object is a parameter with the laws of
--               epoll_ctl(2) (EPoller.Kernel), and the result of epoll_wait(2) is an argument
--   Poller      chaonet/src/Poller.cpp, chaonet/include/Poller.h, the poller over poll(2), which the loop
--               does not use
--   Connection  chaonet/src/TcpConnection.cpp, chaonet/include/TcpConnection.h. A handler takes the
--               connection and the results of its system calls and returns the new connection and the
--               list of what it did outside; Connection.Run has the events of the loop as steps
--   Connector   chaonet/src/Connector.cpp, chaonet/include/Connector.h, in the same way; the functors
--               that the loop still owes it are a part of its state
--   Pool        chaonet/src/EventLoopThreadPool.cpp, chaonet/include/EventLoopThreadPool.h. A loop is
--               a number
--   EventLoop   chaonet/src/EventLoop.cpp, chaonet/include/EventLoop.h. The steps of loop() and the calls
--               of its own and of other threads are events; a functor is a number
--   EventLoopThread  chaonet/src/EventLoopThread.cpp, chaonet/include/EventLoopThread.h and
--               utils/Thread.h. The two threads take turns in any order
--   TcpServer   chaonet/src/TcpServer.cpp, chaonet/src/Acceptor.cpp and their headers, over Pool. What a
--               loop is given to run is in the list of what happens outside
--   TcpClient   chaonet/src/TcpClient.cpp, chaonet/include/TcpClient.h, over Connector
--   TimerQueue  chaonet/src/TimerQueue.cpp, chaonet/src/Timer.cpp, chaonet/include/TimerQueue.h and
--               Timer.h. A set is a list in order, a timer's address a number, and the alarm is what
--               timerfd was last set to
--   Http        examples/http/HttpRequest.h, HttpContext.h and HttpContext.cpp. A request's texts are
--               lists of bytes, and its headers a list of pairs
--   HttpResponse, HttpServer  examples/http/HttpResponse.h, HttpResponse.cpp and HttpServer.cpp, and the
--               rest of HttpRequest.h. The results of fopen(3) and fread(3) are arguments
--   Sudoku      examples/sudoku/Sudoku.h. The board and the records are functions of row and column
--   Tunnel      examples/socks4a/tunnel.h and the message callback of tcprelay.cpp, over Connection
--   Socks       examples/socks4a/socks4a.cpp and the connection callback of tcprelay.cpp, over Buffer.
--               A connection's name is a number, and InetAddress::resolve an argument
--   ProtobufCodec  examples/protobuf/ProtobufCodecLite.h and ProtobufCodecLite.cpp, over Buffer and
--               Connection. The protobuf library and zlib are a parameter
--   SudokuServer  examples/sudoku/server.cpp, over Buffer and Sudoku; what it sends is a list
--
-- A function keeps the name of the source, in snake_case. The asserts of the source are checked, as
-- in a build without NDEBUG: a failed one, an exception, the use of an empty pointer and a count
-- past the largest int are faults, the second case of a Result. Loops are recursion on lists; the
-- loop of parseRequest, which may not end, has fuel, and running out of it is `none`. A vector of
-- bytes is resized up to max_size(), 2^63 - 1, and the properties that append to a buffer ask for
-- room below it. The recursion of the solver has fuel for the 82 calls that are nested at most.
--
-- What an event needs is a Boolean, `allowed`: the assertion of its handler, that neither write(2) nor
-- the user takes more bytes than there are, and that the poller reports only what it was asked for.
--
-- Not modelled: logging, addresses, names and socket options; what a user's callback does, which
-- is an event of its own; the check that a call is in the loop's thread; sockets, which wrap system
-- calls; the other examples.
pub mod Common
pub mod Buffer
pub mod Channel
pub mod EPoller
pub mod Poller
pub mod Connection
pub mod Connector
pub mod Http
pub mod HttpResponse
pub mod HttpServer
pub mod Pool
pub mod EventLoop
pub mod EventLoopThread
pub mod TcpServer
pub mod TcpClient
pub mod Sudoku
pub mod ProtobufCodec
pub mod Tunnel
pub mod Socks
pub mod SudokuServer
pub mod TimerQueue
