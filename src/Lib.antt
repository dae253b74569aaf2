-- ===== src/Lib.antt =====
-- A collection of C programs written for an embedded Linux course. The parts with logic of their
-- own are modelled here, each as a module tree; they share memory, words and strings.
--
-- Taxi: the driver of 03-ipc-and-network-programming/cross-02-taxi-process-manager. Taxi/Protocol
-- is src/protocol.c: `protocol_encode`, `protocol_decode` and `protocol_frame_size` of 24-byte
-- frames. Taxi/Driver is src/driver.c: the clock arithmetic (`update_state`, `remaining_seconds`,
-- `make_timeout`) and `handle_message` with its `switch`, `dispatch`. Taxi/Driver/Input is
-- `process_input`, which takes frames off the input buffer, decodes them and calls
-- `handle_message`; Taxi/Driver/Receive is `receive_input`, which appends what the socket brings
-- and calls `process_input`; Taxi/Driver/Loop is one round of `run_event_loop`, and
-- Taxi/Driver/Send is `send_message`, the loop that writes one frame. Proofs stand in the modules
-- below: Protocol/Codec, Driver/Clock, Driver/Handle, Driver/Input/Framing.
--
-- PhoneTree: the AVL phone book, 02-c-programming/04-03-avl-tree-phone-book/src/phone_book.c.
-- PhoneTree/Contact builds and edits a contact; PhoneTree/Tree is the tree (`phone_book_add`,
-- `balance`, `phone_book_extract_node`, the searches); PhoneTree/Book adds the id manager and the
-- public operations. Tree/View, Tree/Balance, Tree/Add, Tree/Take, Tree/Extract and Tree/Search,
-- Book/Fresh, Book/Ids and Book/Edit hold the proofs.
--
-- Echo: 03-ipc-and-network-programming/cross-01-raw-udp-echo. Echo/Protocol is src/protocol.c and
-- Echo/Server the client table and `server_handle_message` of src/server.c.
--
-- UdpChat: src/protocol.c of 03-ipc-and-network-programming/06-udp-broadcast-chat. Capture:
-- src/filter.c of 03-ipc-and-network-programming/08-raw-socket-packet-capture, whose chat filter
-- accepts packets of that protocol, and src/packet.c, the parser of Ethernet frames
-- (Capture/Packet). TcpChat/Protocol: src/protocol.c of
-- 03-ipc-and-network-programming/07-tcp-chat-and-file-transfer, frames of six types.
--
-- Subnet: 02-c-programming/03-02-ipv4-subnet-checker/src/cheking_subnet_membership.c, the parser
-- and the printer of IPv4 addresses and the membership test; its proofs are in Subnet/RoundTrip.
--
-- PriorityQueue: src/priority_queue.c of 02-c-programming/04-02-priority-queue.
--
-- Calculator: src/calculator.c of 02-c-programming/02-02-calculator, over a type of numbers that
-- is a parameter with the operations of `double` that the source uses. Calculator is `to_postfix`
-- and `calculate_postfix`, with the token stack kept as a list whose head is the top;
-- Calculator/Tokens is `tokenize`, `calculate_expression` and `process_command`, with `strtod` as
-- a parameter; Calculator/Expression is the grammar that they are compared with. The loop of
-- `tokenize` runs on fuel, one more than there are characters, since each round takes a
-- character.
--
-- Taxi/Cli is src/cli.c of the taxi process manager, the commands of its terminal:
-- `split_tokens`, `parse_positive_uint32`, with `strtoul` as a parameter, and
-- `cli_parse_command`. The loop of `split_tokens` runs on fuel, one more than there are
-- characters.
--
-- PhoneList: src/phone_book.c of 02-c-programming/04-01-doubly-linked-phone-book, of which
-- 06-01-static-phone-book-library and 06-02-shared-phone-book-library hold identical copies. Here
-- the pointers matter, so PhoneList/Heap has nodes at addresses, and a command fails where the C
-- code would read through NULL or a pointer that was freed. PhoneList/Operations and
-- PhoneList/Edit are the functions; building a contact and the id manager are the same code as in
-- PhoneTree and are used from there. PhoneList/Heap/Chain says when a heap holds a list, Insert,
-- Link, Detach and Remove what the operations do to it, and Edit/Create and Edit/Refine compare
-- the book with the one on a tree. A loop over the list runs on fuel, which has to be more than
-- the list has nodes.
--
-- RawUdp: src/raw_udp.c of 03-ipc-and-network-programming/cross-01-raw-udp-echo, the checksum and
-- the packets; three rounds of fuel are enough for the loop that folds the carries of a 32-bit
-- sum.
--
-- TcpChat/Server: src/server.c of the stream chat, in the order of its calls. Server has the
-- clients, their queues, the broadcast, the transfer rules and `handle_message`; Server/Input has
-- `process_input`, the loops that receive and send, the acceptance of connections and the
-- handling of one event of a client. What a socket finds and whether `epoll_ctl` succeeds are
-- parameters. Each call of `epoll_ctl` has an answer of its own, by the call of the socket, the
-- frame and the client it is for. The loop of `process_input` runs on fuel, one more than there
-- are bytes, since a frame has bytes.
--
-- Conventions. A buffer is a function from offsets to bytes (Common/Memory), a pointer that may
-- be NULL an Option, a C string the list of its bytes without the NUL (Common/CString), and a
-- fixed-width word keeps its wrap-around by `%` (Common/Memory/Words). An operation returns its
-- result and what it leaves in the objects that it writes. A call of `malloc` or `realloc` is a
-- Boolean that says whether it succeeds; the clock, `getpid` and the socket's answers are
-- parameters. The `while` loop of the driver's `process_input` runs on fuel `suc input_size`:
-- each round takes 24 bytes off the buffer. A tree pointer is an inductive tree, since no node is
-- shared, and the recursion of the C code is structural.
--
-- Not modelled: the start and the end of the driver, the taxi manager, the terminal I/O and the
-- sockets themselves, the release of memory outside PhoneList, and the programs that mostly call
-- the kernel's IPC interfaces. Common is the shared base, and Tests applies the theorems to
-- concrete inputs.
pub mod Common
pub mod Taxi
pub mod PhoneTree
pub mod PhoneList
pub mod Echo
pub mod PriorityQueue
pub mod RawUdp
pub mod UdpChat
pub mod TcpChat
pub mod Subnet
pub mod Calculator
pub mod Capture
pub mod Tests
