-- ===== src/Lib.antt =====
-- lmqtt_cpp: an MQTT 5 server, from the bytes of a packet to the sessions. An incoming packet is a
-- byte vector that include/lmqtt_packet.h decodes: the fixed header gives its type, the body of a CONNECT
-- packet its flags, its properties (include/lmqtt_properties.h) and its payload parts
-- (include/lmqtt_payload.h), and each of them is handed to the client's configuration
-- (include/lmqtt_client_config.h), which takes or refuses it. A connection
-- (include/lmqtt_connection.h) reads the packets from a socket, has them decoded, answers a CONNECT
-- packet and closes. The server (include/lmqtt_server.h) accepts clients; a connection that ends puts
-- itself, on most paths, in the server's deletion queue, from which a thread takes it and ends its
-- session. Both queues are of include/lmqtt_tsqueue.h.
--
-- Files and code:
--   Common, Common/Outcome   helpers; the outcome of a call and the codes of
--                            include/lmqtt_reason_codes.h
--   Memory                   buffers: positions stand for pointers, a read outside is `fault`
--   Utf8                     is_valid_content and its siblings of include/lmqtt_utf8_string.h;
--                            Utf8/Spec is the encoding that it is held against
--   VarInt, Strings          decode_variable_int, encode_variable_int, get_variable_int_size,
--                            decode_utf8_str, decode_utf8_str_fixed of include/lmqtt_utils.h
--   Types                    the enumerations and tables of include/lmqtt_types.h
--   Property                 get_property_data of include/lmqtt_properties.h; Property/Print is the
--                            encoding that it is held against, Property/Write is
--                            write_property_to_buffer
--   Payload                  get_payload of include/lmqtt_payload.h
--   Config                   client_config and will_config, and how they are set
--                            (include/lmqtt_client_config.h, include/lmqtt_will_config.h)
--                            Config/Will and Config/Payload are its parts for the will and for
--                            the payload, Config/Fill is get_property_size and fill_property
--   Packet                   fixed_header, create_fixed_header; Packet/Properties, Packet/Payload and
--                            Packet/Connect are decode_properties, decode_payload and
--                            decode_connect_packet_body; Packet/ConnectPrint is the encoding that the
--                            last is held against; Packet/Publish is the decoders of PUBLISH and
--                            DISCONNECT, Packet/Connack is create_connack_packet
--                            (include/lmqtt_packet.h)
--   TsQueue                  the methods of ts_queue (include/lmqtt_tsqueue.h); TsQueue/Wait is `wait`
--                            and the notification, with one waiting thread
--   Connection               the state and the handlers of include/lmqtt_connection.h: on_header is the
--                            handler of read_fixed_header, on_body that of read_packet_body,
--                            on_write_posted and on_written those of send_packet and write_packet,
--                            on_timeout the timer's function; Connection/Steps is the order in which
--                            they can be called
--   Server                   the queues, wait_for_clients, on_client_connection and deleter_job of
--                            include/lmqtt_server.h, and the steps of its threads; Server/Stop is
--                            `stop` and the cleanup thread that it joins
--   TimerQueue               timer_queue of include/lmqtt_timer_queue.h, and the fields of
--                            include/lmqtt_timer.h
--   Tests                    runs on small inputs
--
-- Conventions. A buffer is a list of bytes, a pointer into it a position, a string_view a start and a
-- size, a std::string the list of its bytes. Out parameters are handed back, and a method that changes
-- the client's configuration gives the changed one back also where it returns an error. A cast to the
-- wrong property type, a null pointer and a read outside the buffer are the outcome `fault`.
--
-- Loops. `for (i < 4)` of the variable byte integers takes four rounds. The encoder of them takes six:
-- a 32-bit value has at most five digits in base 127. The loops over characters and over properties
-- take at least a byte a round, so one round for each byte of the buffer and the last test are enough;
-- the payload loop is a recursion on the array of payload flags. A loop without rounds left is the
-- outcome `no_fuel`, which the theorems on the decoders exclude; a handler of a connection would hand
-- it on as `unfinished`. A body is at most 1024 bytes when its handler is called.
--
-- Concurrency. asio calls the handlers on one thread, one at a time; a handler is a function of the
-- session and of what asio hands over: the bytes, or that the operation failed. An operation that has
-- been started is in `pending` until its handler is called, which may be at any later step. The
-- blocking read_some of the length bytes takes them from the list of the bytes that the peer sends
-- before it closes its end. A step of the server is a handler, an accepted client, a timer or a round
-- of the deleter, each with the lock of the queue that it uses. An address stands for the identity of
-- a connection: a new one has an address that no other, also none that has been destroyed, has had. The
-- constructor and the thread of a timer queue take turns in any order; the source does not lock that
-- queue, and an insert and a test with its pop are each taken as a whole.
--
-- Not modelled: the log output, also the remote_endpoint that it calls, which can throw; the clock of
-- the decoders; asio itself; how long a wait takes; include/lmqtt_tspqueue.h, which nothing includes and
-- which does not compile; and the two programs, which start the server.
pub mod Common
pub mod Memory
pub mod Utf8
pub mod VarInt
pub mod Types
pub mod Strings
pub mod Property
pub mod Payload
pub mod Config
pub mod Packet
pub mod TsQueue
pub mod Connection
pub mod Server
pub mod TimerQueue
mod Tests
