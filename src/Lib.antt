-- ===== src/Lib.antt =====
-- rtpkit: a verification library for the packet parsers, builders, stream analysis and capture
-- files of the rtpkit package.
--
-- The package parses and builds RTP and RTCP packets without copying the buffer, tells which flows carry
-- them, follows their sequence numbers, and reads and writes them in capture files. Its core is the
-- RTP parser (src/rtpkit/parser/rtp_parser.py) with the packet model (src/rtpkit/model/packet.py), the
-- RTP builder (src/rtpkit/builder/rtp_builder.py), which a fluent chain of setters fills, the RFC 8285
-- extension elements (src/rtpkit/model/extension.py), which both share, and the RTCP compound parser
-- (src/rtpkit/parser/rtcp_parser.py) and builder (src/rtpkit/builder/rtcp_builder.py) with the packet model
-- src/rtpkit/model/rtcp.py. Each parser has a strict mode that raises and a lenient mode that logs a
-- warning and goes on.
--
-- The files, and the code that they model:
--   Common: the shared names; Common/Tests the Boolean tests, Common/Lists the lists over native numbers,
--     Common/Int the ints that may be negative, Common/Bits Python's bit operations and their arithmetic.
--   Errors: the exceptions of src/rtpkit/model/errors.py, and which class hierarchy each belongs to.
--   Outcome: what a call does: it returns a value, having logged warnings, or it raises. Outcome/Laws:
--     what a call ensures, and what it means that the strict and the lenient mode agree.
--   Wire: indexing, slicing and the struct module's formats B, H and I. An index out of the bytes raises
--     IndexError and a format that does not fit struct.error, as in Python, so that the theorems on what
--     a parser raises also say that no read leaves the buffer. Wire/Read and Wire/Write: their laws.
--     Wire/Order: the formats in either byte order, for the capture files.
--   Rtp: RtpPacket with its computed properties; HeaderExtension. Rtp/Layout: an independent description
--     of the bytes of a packet, by RFC 3550.
--   Rtp/Parser: `_parse`, one function for each section of its body: the fixed header, the version test,
--     the CSRC list, the extension, the padding and the packet that they make. `parse_rtp` and
--     `parse_rtp_lenient` are `parse true` and `parse false`.
--   Rtp/Builder: RtpBuilder as a record, its setters as functions on it, `_validate`, `build` and
--     `build_packet`. The ints that a caller sets may be negative or of any size.
--   Rtp/Extension: `classify_profile`, `parse_extension_elements` and `build_header_extension`, with the
--     loops of both formats, and the builder's `with_extension_elements`.
--   Rtcp: the RTCP packets. Rtcp/Bodies: `_parse_one` with the bodies of the five types. Rtcp/Parser:
--     `_parse_compound`, one function for each part of a round of its loop. Rtcp/Builder: `build_rtcp`,
--     `_build_one` and the serializers, with the `except` that turns struct.error into RtcpBuildError.
--   Detection: `looks_like_rtp` and `looks_like_rtcp` of src/rtpkit/detection/heuristics.py, and in
--     Detection/Flow the classifier of src/rtpkit/detection/flow.py, which runs the strict RTP parser on
--     every datagram and keeps counts.
--   Stream: the tracker of src/rtpkit/stream/tracker.py and the report of src/rtpkit/model/stream.py. Stream/State
--     is `_StreamState`, the state of one source; Stream/Tracker the dict of them. Floats are a parameter,
--     the record `Floats` of the operations that the code uses.
--   Net: src/rtpkit/io/decap.py and src/rtpkit/io/encap.py, between a captured frame and the UDP payload in it. The
--     ipaddress module is a parameter, the record `IpAddresses`.
--   Capture: the readers and writers of capture files in src/rtpkit/io: Capture/Pcap (pcap_reader.py and
--     pcap_writer.py), Capture/Pcapng (pcapng_reader.py), Capture/PcapngWriter (pcapng_writer.py) and
--     Capture/Dispatch (capture.py). A reader is a generator: its `Run` says what it yields and logs, in
--     order, and how it ends. Times are a parameter, the record `Times`; finite floats are meant, since int()
--     of another raises.
--   Common/Keys and Common/Dicts: dicts as association lists in insertion order.
-- In each component the child modules prove what their names say, and Tests holds runs and witnesses.
--
-- Numbers are the native natural numbers, where an int cannot be negative, and a byte is a number below
-- 256, which a theorem assumes where it needs it. A loop over a position is a recursion on the bytes from
-- there on, with a fuel of as many rounds as there are bytes: each round takes at least one, and the
-- theorems on what the parsers and readers raise show that the fuel never runs out. Warnings that precede an
-- exception in a parser are dropped; only the strict mode raises behind the length check, and it logs nothing.
--
-- Not modelled: message texts, the float `SenderInfo.ntp_timestamp`, the file access around the capture
-- bytes, the G.711 tables of src/rtpkit/codec, the table of payload types and the fuzzer of src/rtpkit/fuzz.
pub mod Common
pub mod Errors
pub mod Outcome
pub mod Wire
pub mod Rtp
pub mod Rtcp
pub mod Detection
pub mod Stream
pub mod Net
pub mod Capture
