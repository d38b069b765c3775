-- ===== src/Lib.antt =====
-- A model of the TCP implementation in libsponge, and what is shown of it.
--
-- The program. A `ByteStream` is a queue of bytes of bounded size. A `StreamReassembler` takes
-- substrings of a stream in any order and writes the stream to a `ByteStream`. A `TCPReceiver` finds
-- the place of each segment in the stream (`unwrap`) and pushes its payload to a reassembler; a
-- `TCPSender` reads a `ByteStream`, cuts it into segments within the peer's window, and sends the
-- oldest one again when its timer expires. A `TCPConnection` owns one of each: it hands segments,
-- writes and time to them, stamps the segments sent with the receiver's acknowledgment number and
-- window, and decides when the connection is over. Segments cross the network as bytes: `TCPSegment`,
-- `TCPHeader`, `NetParser`, `InternetChecksum` and `Buffer` read and write these, and the adapters put
-- them into UDP datagrams or into an `IPv4Datagram`, over a socket or a TUN device. A `FileDescriptor`
-- reads and writes with system calls and counts them; an `EventLoop` polls the descriptors of its rules
-- and calls back those that are ready. A `TCPSpongeSocket` has four rules: datagrams go to its
-- connection, the owner's bytes too, the connection's stream goes to the owner, and its segments out as
-- datagrams. `bidirectional_stream_copy` has four rules between standard input and output and a socket.
--
-- The files. Each is named for the class it models, and its functions for the methods, in snake case:
--   WrappingIntegers    libsponge/wrapping_integers.hh, .cc
--   Buffer              libsponge/util/buffer.hh, .cc (`Buffer`, `BufferList`, `BufferViewList`)
--   ByteStream          libsponge/byte_stream.hh, .cc; ByteStream.Script is its specification
--   StreamReassembler   libsponge/stream_reassembler.hh, .cc; Segments is `_used_byte` with
--                       `remove_segement`, Nodes is `_str_to_assemble` with `_existed`
--   NetParser           libsponge/util/parser.hh, .cc (`NetParser` and `NetUnparser`)
--   InternetChecksum    the class of that name in libsponge/util/util.hh, .cc
--   TcpHeader, TcpSegment, TcpConfig, TcpState    libsponge/tcp_helpers/tcp_header, tcp_segment,
--                       tcp_config and tcp_state
--   Ipv4Header, Ipv4Datagram    libsponge/tcp_helpers/ipv4_header and ipv4_datagram
--   FdAdapter           libsponge/tcp_helpers/fd_adapter and lossy_fd_adapter.hh
--   TcpOverIp           libsponge/tcp_helpers/tcp_over_ip
--   SystemCall          `SystemCall` and the exceptions, libsponge/util/util.hh, .cc
--   FileDescriptor, EventLoop, Socket    libsponge/util/file_descriptor, eventloop and socket
--   Adapters            the adapters over their descriptors: libsponge/tcp_helpers/fd_adapter,
--                       tuntap_adapter.hh and lossy_fd_adapter.hh, behind one interface
--   TcpSpongeSocket     libsponge/tcp_helpers/tcp_sponge_socket: the rules; Lifecycle is the loop
--                       and the public operations
--   BidirectionalStreamCopy    apps/bidirectional_stream_copy.cc; Main is its loop
--   TcpReceiver, TcpSender, TcpConnection         libsponge/tcp_receiver, tcp_sender, tcp_connection
-- The children of these files hold the invariants and the proofs; Common holds what they share, and
-- Tests applies the theorems at concrete inputs.
--
-- How the code is read. An object is a record of its members, and a method is a function from the
-- object to the new object and its result. `size_t` and `uint64_t` are numbers with `% 2 ^ 64`,
-- `uint32_t` with `% 2 ^ 32`. An exception, or a read of the front of an empty deque, is `none`. A
-- `std::set` or `std::map` is the list of its elements in ascending order; an iterator into a
-- `std::list` is the identity of a node. A loop over a container is recursion on the list of its
-- elements. The loop of `TCPSender::fill_window` has the window as fuel, of which every round uses up
-- some, and the loop of `InternetChecksum::value` has a fuel of 3: in two rounds a 32-bit number
-- falls below 2 ^ 16. The loop of `FileDescriptor::write` has one round more than there are bytes as
-- fuel: a round that takes nothing throws. `_tcp_loop` and the loop of `bidirectional_stream_copy` last
-- as long as the rest of the system wants; their theorems hold for every fuel. The random sequence
-- number of `TCPSender` is a parameter of its constructor.
--
-- What the kernel, the clock, the owner's abort flag and a lossy adapter's random numbers answer is
-- given by functions of the number of the call, over which the theorems range. A callback of the event
-- loop is a function on the state of the client, which holds the descriptors; where a call throws, the
-- state is that in which the code leaves the objects.
--
-- Bounds. The counters of bytes are 64 bits wide and wrap around in the code as in the model; the
-- theorems ask for streams so short that they do not. Those on a whole socket ask for a peer's stream
-- shorter than half of the sequence numbers, since a receiver cannot place an old segment that is
-- farther behind.
--
-- Not modelled: what only prints (`to_string`, `summary`, `name`, `as_string`, the debugger of
-- `TCPConnection` and the messages on cerr); the start and the joining of the thread of a
-- `TCPSpongeSocket`, its destructor, `wait_until_closed` and what `_tcp_main` does behind its loop, which
-- the two threads do to each other; `Address`, the opening of a TUN device and the calls of `Socket` that
-- only pass their arguments on to the kernel; and the applications other than
-- `bidirectional_stream_copy`, which read a command line and use the library.
pub mod Common
pub mod WrappingIntegers
pub mod Buffer
pub mod ByteStream
pub mod StreamReassembler
pub mod NetParser
pub mod InternetChecksum
pub mod TcpHeader
pub mod TcpSegment
pub mod Ipv4Header
pub mod Ipv4Datagram
pub mod FdAdapter
pub mod SystemCall
pub mod FileDescriptor
pub mod EventLoop
pub mod Socket
pub mod TcpOverIp
pub mod TcpConfig
pub mod TcpReceiver
pub mod TcpSender
pub mod TcpConnection
pub mod TcpState
pub mod Adapters
pub mod TcpSpongeSocket
pub mod BidirectionalStreamCopy
pub mod Tests
