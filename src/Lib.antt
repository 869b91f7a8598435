-- ===== src/Lib.antt =====
-- A verification library of imquic, a QUIC library with MoQ and RTP over QUIC.
--
-- The program: utils.c, buffer.c and qpack.c hold the data formats, roq.c is the RTP over QUIC stack and moq.c the
-- MoQ stack. The stacks read and write the variable-length integers of utils.c and moq.c, keep incomplete data
-- in the buffers of buffer.c, and are called by the QUIC layer with the bytes of a stream or a datagram.
--
-- The modules, with the code each one models (paths from the repository's root):
--   Base           Boolean tests, lists and tables over native numbers, bytes and words; no code of the program.
--   Wire.Varint    src/utils.c: imquic_read_varint, imquic_write_varint.
--   Wire.Pfxint    src/utils.c: imquic_read_pfxint, imquic_write_pfxint.
--   Wire.Moqint    src/moq.c: imquic_read_moqint, imquic_write_moqint.
--   Wire.Writer, Wire.Reader
--                  how the builders and parsers of src/moq.c move along a buffer, and the tests of what is left.
--   Glib           g_list_sort and g_snprintf, which are parameters: interfaces of their documented behaviour.
--   Buffer         src/buffer.c: imquic_buffer_create, _resize, _append, _shift; Buffer.Contents is what a buffer
--                  stands for, Buffer.Refinement relates the two.
--   Roq            src/roq.c: imquic_roq_buffer_data, imquic_roq_stream_incoming, imquic_roq_datagram_incoming,
--                  imquic_roq_send_rtp (send_on_datagram and send_on_stream are its two branches).
--   Moq.DatagramType, Moq.SubgroupType, Moq.FetchFlags
--                  src/moq.c: the encodings of message types and flags.
--   Moq.RequestId  src/moq.c: moq_is_request_id_valid and what reads and changes request identifiers and limits.
--   Moq.Namespaces src/moq.c: IMQUIC_MOQ_PARSE_NAMESPACES, IMQUIC_MOQ_ADD_NAMESPACES.
--   Moq.SetupOptions
--                  src/moq.c: imquic_moq_setup_option_add_int, imquic_moq_setup_option_add_data,
--                  imquic_moq_parse_setup_option.
--   Moq.Properties src/moq.c: imquic_moq_parse_properties, imquic_moq_property_type_sort,
--                  imquic_moq_build_properties.
--   Moq.AuthToken  src/moq.c: imquic_moq_parse_auth_token, imquic_moq_build_auth_token.
--   Moq.Messages   src/moq.c: IMQUIC_MOQ_ADD_MESSAGE_TYPE, IMQUIC_MOQ_ADD_MESSAGE_LENGTH and what
--                  imquic_moq_parse_message does before it calls a parser of a control message; Done and Cancel are
--                  PUBLISH_DONE and PUBLISH_NAMESPACE_CANCEL, Single the messages that carry one number.
--   Moq.Subscriptions
--                  src/moq.c: the tables subscriptions_by_id and subscriptions of a session, and what the functions that
--                  its comment names do to them; an address that has been freed is told from one that is in use.
--   Moq.Objects    src/moq.c: Parse and Fetch are the parsers imquic_moq_parse_object_datagram,
--                  imquic_moq_parse_object_datagram_status, imquic_moq_parse_subgroup_header,
--                  imquic_moq_parse_subgroup_header_object, imquic_moq_parse_fetch_header_object; Send is the builders
--                  imquic_moq_add_object_datagram and so on and a part of imquic_moq_send_object; Receive is the loop of
--                  imquic_moq_parse_message over a data stream and Datagram its branch for datagrams.
--   Moq.Codes      src/moq.c: the functions that name codes, with the enumerations of src/imquic/moq.h and
--                  src/internal/moq.h.
--   Moq.Grease     src/moq.c: imquic_moq_is_grease, imquic_moq_random_grease, imquic_moq_version_from_alpn.
--   Qpack          src/qpack.c: the static table, the dynamic table and imquic_qpack_find_entry.
--   Tests          runs of the theorems at concrete inputs.
--
-- The model: a pointer with a length is the list of the bytes that may be read. Arithmetic on 64 bits wraps around
-- where the code's does. A function that stores through pointers returns what it stores. A GHashTable is an
-- association list with replacing insertion. Undefined behaviour, reads and writes past the end of an array are values
-- (none, overflow, overrun, overread, out_of_bounds), so that theorems can speak of them. An endpoint's callbacks are
-- the list of what is delivered. Three loops run on fuel: imquic_roq_buffer_data, imquic_moq_parse_properties and the
-- loop over the objects of a data stream. Each round takes a byte of the buffer at least, so the buffer's length is
-- enough. The other loops are structural. The allocator, strcasecmp, strlen, g_list_sort and g_snprintf are parameters.
--
-- Not modelled: QUIC itself (the picoquic library), sockets, threads, locks and reference counts, tracing,
-- the public wrappers, HTTP/3, the instructions and the Huffman coding of QPACK, the MoQ messages beyond what is
-- listed, and the tables of requests and of the streams of subscriptions.
pub mod Base
pub mod Glib
pub mod Wire
pub mod Moq
pub mod Buffer
pub mod Roq
pub mod Qpack
pub mod Tests
