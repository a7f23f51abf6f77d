-- ===== src/Lib.antt =====
-- Mowgli LoRa Link: a model of the host side of a USB-to-LoRa link, and what makes it correct.
--
-- The program. Two radio modems carry frames between a base host and a robot host. A host talks to its
-- modem over USB in byte-stuffed frames (tools/lora_usb/protocol.py); the hosts talk to each other in
-- application frames (tools/lora_usb/application.py), which travel as the payload of a radio packet.
-- On the base, RTCM3 corrections arrive as a byte stream, are parsed (host/mowgli_lora/rtcm.py), cut
-- into fragments and sent through the modem transport (host/mowgli_lora/modem.py); on the robot the
-- fragments are put together again and handed to TCP clients (host/mowgli_lora/service.py).
--
-- The files.
--   Prelude   shared names, Boolean tests, lists, exceptions as values, Python's integers.
--   Crc       `crc16` and `crc24q`, bit by bit; Crc/Detection: which errors they detect.
--   Wire      big-endian fields: the `struct` formats of the source.
--   Dict      Python's dict and OrderedDict as association lists in insertion order.
--   Protocol  tools/lora_usb/protocol.py. Cobs: `cobs_encode`, `cobs_decode`. Frame: `encode_frame`,
--             `decode_frame`. Radio: `encode_radio`, `decode_radio`. MockApp: `make_mock_app`,
--             `parse_mock_app`. Payloads: the `parse_` functions. Stream: `StreamDecoder`,
--             `split_stream`.
--   Application  tools/lora_usb/application.py. Codec: `encode`, `decode`. Bodies: the HELLO,
--             TELEMETRY, STOP_REQUEST and COMMAND_ACK bodies. Rtcm: `valid_rtcm3`, `rtcm_type`,
--             `fragment`. Reassembler, StopCache: the classes of these names. Synthetic:
--             `synthetic_rtcm`, `synthetic_epoch`.
--   Host      host/mowgli_lora. Parser: `RtcmStreamParser`. Modem: `ModemTransport`, its sessions and
--             requests (Modem/Session), its handlers (Modem/Handlers) and `tick` (Modem/Tick). Output:
--             `TcpRtcmOutput`. Pump: `_InputPump` and the routing of `_run_base`. Recording: the
--             files of rtcm_tool.py. Base: `BaseService`, its `step` in Base/Steps. Robot:
--             `RobotService`. Ros: `RtcmTcpReader` and the timer of mowgli_ros.py.
--   Bench     tools/lora_usb. Scheduler: the class of this name of mixed_bench.py. Client:
--             `ModemClient` of client.py, its requests in Client/Requests. Transport:
--             `SimulatedTransport` of mixed_bench.py. Delta: its `_diagnostics_delta`.
-- Modules below these hold the theorems, and modules called Tests hold concrete runs.
--
-- How the code is rendered. A class is a record of its fields, a method a function from the record to
-- the record and the result; an exception is a value beside the state that the code leaves behind. A
-- byte is a number, a byte string a list of numbers. Integers that the code accepts are not negative,
-- except for the fields that the wire format signs, which are integers with both signs. Times are
-- whole milliseconds: 0.6 seconds are 600; in the mixed bench they are microseconds. The transport
-- and the client run over an arbitrary serial port and clock (`Port`), whose results are not
-- constrained but where a theorem says so. Calls of the metrics registry are kept as a list of
-- updates, in order; the reassembler and the parser keep their own counters.
-- The services call the models of their parts; each part keeps the updates that it makes itself. In
-- Host/Robot what the sockets do is given for each call of the output, and in Host/Ros the thread and
-- the timer act one after the other, in any order.
-- In Host/Output the clients that connect and the results of `send` are arguments; in Host/Pump the
-- methods of the reader run one after the other and the loop takes items between them.
--
-- Fuel. `cobs_decode` takes a round for each code byte, and each round takes a byte at least, so that
-- the length of the input is enough. The parser's `feed` takes at most one round for each byte of the
-- buffer and one more, and `records` at most one for each byte of the file and one more. `write_loop`
-- of the transport has a round for each byte to write. The client waits a round for each millisecond
-- until the deadline, and one more, since it sleeps for one in each round. Everything else is
-- structural recursion.
--
-- Not modelled: the firmware in C++, sockets, threads, the file system and the command line, the HTTP
-- endpoint of the metrics, the services' main loops, the configuration file, the ROS node and the
-- measurements of the benchmarks; of the mixed bench, the runner and the modems that it drives, and of
-- the recordings, their statistics and their comparison. The tests of the repository are not part of
-- the model.
pub mod Prelude
pub mod Crc
pub mod Wire
pub mod Dict
pub mod Protocol
pub mod Application
pub mod Host
pub mod Bench
