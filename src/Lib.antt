-- ===== src/Lib.antt =====
-- Verification of NeuStack, a TCP/IP stack in user space: IPv4, ICMP, UDP, TCP, the
-- firewall, HTTP and DNS.
--
-- The program. A TCPConnectionManager (include/neustack/transport/tcp_connection.hpp and
-- src/transport/tcp_connection.cpp) keeps a table of control blocks (tcp_tcb.hpp), a table of
-- listeners and a time-wait list. Segments come in parsed (src/transport/tcp_segment.cpp), go
-- through the handler of the connection's state, and leave through a callback as bytes that
-- TCPBuilder (src/transport/tcp_builder.cpp) has made and checksummed (src/common/checksum.cpp). An
-- application calls listen, connect, send and close, and is called back when data or a close
-- arrives. A timer retransmits, probes closed windows, sends delayed acknowledgements and ends the
-- time-wait state.
--
-- Below it IPv4Layer (include/neustack/net/ipv4.hpp, src/net/ipv4.cpp) parses the packets of a
-- device and hands each to the handler of its protocol: ICMPHandler (src/net/icmp.cpp), which
-- answers echo requests and sends errors, and UDPLayer (src/transport/udp.cpp), which calls the
-- callback of a port. Before it FirewallEngine (src/firewall/firewall_engine.cpp) inspects the
-- packets: it reads an event from a packet into a slot of a FixedPool
-- (include/neustack/common/memory_pool.hpp), asks the RuleEngine
-- (include/neustack/firewall/rule_engine.hpp), which has lists of addresses, a RateLimiter and
-- rules, and then FirewallAI (src/firewall/firewall_ai.cpp), whose last inference may overrule it.
--
-- Above it HttpServer (src/app/http_server.cpp) feeds what a connection receives to an
-- HttpRequestParser (src/app/http_parser.cpp), finds a route or a file for the request, and sends
-- the response at once or, for a generator of chunks, as the connection takes it; DnsClient
-- (src/app/dns_client.cpp) sends queries by UDP, and answers them by callbacks when a response
-- comes or when the timer gives up.
--
-- The files.
--   Common             the libraries' names, Boolean tests, and lists on native numbers.
--   Seq                include/neustack/transport/tcp_seq.hpp. Seq/Order: its comparisons as an order.
--   Stream             class StreamBuffer of include/neustack/common/ring_buffer.hpp. Stream/Window:
--                      lists read through an index that goes round; Stream/Contents and
--                      Stream/Storing: what the ring holds; Stream/Refine: the ring as a queue
--                      of bytes.
--   Checksum           src/common/checksum.cpp. Checksum/Fold: the arithmetic of the fold.
--   Segment            tcp.hpp, tcp_segment.hpp, tcp_builder.hpp and their sources. Segment/RoundTrip:
--                      what is built is parsed.
--   Tcp                tcp_state.hpp and tcp_tcb.hpp: the control block. Tcp/World: the world that it
--                      works in.
--   Tcp/Send           send_segment, raw_send, send_rst, send_buffered_data, send_zero_window_probe.
--   Tcp/App            send and close, and what a callback does with them.
--   Tcp/Ack            process_ack, update_rtt and check_dup_ack.
--   Tcp/Timers         check_retransmit, check_zero_window_probe and check_delayed_ack.
--   Tcp/Data           handle_data, add_to_ooo_queue, deliver_ooo_data, deliver_data.
--   Tcp/Handlers       the handlers of the states, handle_rst, and the switch between them.
--   Manager            the tables: listen, unlisten, connect, create_tcb, delete_tcb and the time-wait
--                      list. Manager/Events: handle_listen, on_segment_received and on_timer.
--   Reno               include/neustack/transport/tcp_reno.hpp: the window after the calls that a
--                      connection has made. Reno/Bounds: its bounds.
--   Limiter            include/neustack/firewall/rate_limiter.hpp: the token bucket of one address.
--                      Limiter/Rate: how many packets it lets through. Limiter/Table: the buckets of
--                      all addresses, in the order of their last use; Limiter/Table/Bounds: how many
--                      there are, and that a rested address gets through.
--   Net/Ipv4           IPv4Parser and IPv4Builder. Net/Ipv4/RoundTrip: what is built is parsed;
--                      Net/Ipv4/Reading: what a packet is that has been accepted.
--   Net/Host           the state of the layers, and IPv4Layer::send. Net/Host/Sending: its frames.
--   Net/Icmp           src/net/icmp.cpp. Net/Icmp/Echo and Net/Icmp/Quiet: what is answered.
--   Net/Udp            src/transport/udp.cpp. Net/Udp/Ports: the ports that bind gives;
--                      Net/Udp/Search: the search for a free port;
--                      Net/Udp/RoundTrip: from sendto to the callback.
--   Net/Receive        IPv4Layer::on_receive, which the three before come together in.
--   Firewall           firewall_decision.hpp, packet_event.hpp and rule.hpp.
--   Firewall/Rules     rule_engine.hpp. Firewall/Rules/Sorted: the order of the rules;
--                      Firewall/Rules/Order: the rule that decides;
--                      Firewall/Rules/Addresses: the lists of addresses.
--   Firewall/Packet    parse_packet and fill_event_from_ipv4 of firewall_engine.cpp.
--                      Firewall/Packet/Same: that they agree;
--                      Firewall/Packet/Reads: the bytes that parse_packet reads.
--   Firewall/Pool      memory_pool.hpp, with the invariant of its slots.
--   Firewall/Ai        firewall_ai.cpp. Firewall/Ai/History: what its counters keep of the calls;
--                      Firewall/Ai/Shadow: when the shadow mode changes.
--   Firewall/Engine    firewall_engine.cpp. Firewall/Engine/Kept: the pools and the counters;
--                      Firewall/Engine/Verdict: when a packet is dropped.
--   SpscQueue          include/neustack/common/spsc_queue.hpp, as steps of two threads. SpscQueue/Slots
--                      and SpscQueue/Fifo: that it is first in, first out.
--   MetricsBuffer      class MetricsBuffer of ring_buffer.hpp, its calls one after the other.
--                      MetricsBuffer/Recent: what it returns.
--   TcpLayer           src/transport/tcp_layer.cpp: from a packet to the connection manager.
--                      TcpLayer/Segments and TcpLayer/Listening: what it makes of a segment, and of
--                      a port that is listening already.
--   Http               include/neustack/app/http_types.hpp and src/app/http_types.cpp. Http/Text: the
--                      strings, with string_utils.hpp.
--   Http/Parser        src/app/http_parser.cpp: the parser of requests. Http/Parser/Response: the one of
--                      responses. Http/Parser/Rounds: the rounds of the loop of feed;
--                      Http/Parser/Lines, Http/Parser/Moves, Http/Parser/Pieces and
--                      Http/Parser/Incremental: data in pieces.
--   Http/Server        src/app/http_server.cpp: the routes and one connection. Http/Server/Stream: what
--                      it sends; Http/Server/Pending, Http/Server/Loops, Http/Server/Begun and
--                      Http/Server/Sent: where the bytes of a response are;
--                      Http/Server/Paths: the files; Http/Server/Pipelined: what a request is answered;
--                      Http/Server/Table: the table of connections; Http/Server/Random: the
--                      generator of random data.
--   Dns                the messages of src/app/dns_client.cpp. Dns/Walk: the walk through a name;
--                      Dns/Inside: the bytes that are read; Dns/Names: names written and read.
--   Dns/Client         the queries of src/app/dns_client.cpp. Dns/Client/Answers: responses;
--                      Dns/Client/Retries: the timer.
-- The proofs on a connection stand in Tcp/Queue and Tcp/Flight (the retransmission queue against
-- the numbers in flight), Tcp/Edge (what moves snd_una), Tcp/Chunk, Tcp/Rounds and Tcp/Drain (the
-- sending loop), Tcp/Pieces, Tcp/Overrun and Tcp/Reassembly (received data against the peer's
-- stream), Tcp/Rtt, Tcp/Timeout and Tcp/Unanswered (the timers), Tcp/Phases (the state machine), with Tcp/Frame, Tcp/CallStates and
-- Tcp/States for what an operation leaves alone; those on the tables in Manager/Bounds,
-- Manager/Connect and Manager/Listener. Tests applies the theorems at concrete values.
--
-- State. A control block is the record Tcb with the source's fields. A handler takes and returns a
-- Conn: the block, the World (clock, packets sent, samples, callbacks made, counters), and whether a
-- callback deleted the block. What a handler does last to the tables is an After, which Manager
-- carries out. A callback is a list of calls of send and close, which the record Env gives as a
-- function of the connection's state, so that every program of an application that calls them is
-- covered; it does not call listen or connect. Env also stands for the initial sequence numbers, for
-- the congestion controller as a function of the calls made of it, and for a division of floats. The
-- buffers of the packets handed to the send callback are the header and payload that they encode.
--
-- The layers below TCP are one record, Host, with the frames sent and the callbacks called; a
-- handler is one of two that are modelled or a number. An inspected packet's result is the verdict
-- and the engine, or nothing where the code reads behind the end of its data. Parameters are
-- std::sort, the arithmetic of the floats, the reads of the clock, and what the metrics and the
-- model for anomalies give to an inference. Addresses in network order are words of a little-endian
-- machine.
--
-- The HTTP server's handlers, the files it can read, the order in which an unordered_map gives the
-- headers, and how many bytes a connection takes of each send are parameters.
--
-- What the code reads behind the data of a DNS message is a parameter, for single bytes and for
-- copies; what it writes behind an array of the out-of-order queue sets a flag of the control block.
--
-- Numbers are natural numbers, and 32-bit and 16-bit arithmetic wraps where the source's does. The
-- clock does not move during a handler.
--
-- Fuel. The loop of send_buffered_data runs on one more round than there are bytes in the buffer,
-- and each round takes a byte; the fold of a checksum on two rounds; the search for an ephemeral
-- port on 2^16 rounds, after which the counter is back where it started; the loop of the HTTP
-- parsers on three rounds, of which each but the last moves on to a later state, and over the lines
-- of a header on a round for each byte; decode_name on twelve rounds for each byte, since it
-- follows at most ten pointers; the loops that send a response on a round for each byte left. The
-- other loops go over a list.
--
-- Not modelled: the controllers Cubic and Orca, which compute with floats; the loading of models,
-- the security metrics and the planes for inference; the rest of src/transport/tcp_layer.cpp;
-- readers of the sample ring while it is written; the HTTP client; devices; telemetry.
pub mod Common
pub mod Seq
pub mod Stream
pub mod Checksum
pub mod Segment
pub mod Tcp
pub mod Manager
pub mod Reno
pub mod Limiter
pub mod Net
pub mod Firewall
pub mod SpscQueue
pub mod MetricsBuffer
pub mod TcpLayer
pub mod Http
pub mod Dns
pub mod Tests
