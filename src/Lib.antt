-- ===== src/Lib.antt =====
-- A model of the LWM2M engine of the repository, the C library under core/, and of its correctness.
--
-- The engine is one library in two modes. A client exposes objects (core/objects.c), registers with
-- servers (core/registration.c) and notifies them of changes (core/observe.c); a server keeps the
-- clients that registered and observes their resources. Both send confirmable requests as
-- transactions (core/transaction.c), which `lwm2m_step` of core/liblwm2m.c sends again until they
-- are answered or given up. Requests name their target by an uri (core/uri.c), values travel as TLV
-- records (core/tlv.c), and all lists that are searched by id are the lists of core/list.c. The
-- model is of a build with both modes.
--
-- Files:
--   Prelude       shared names, Boolean tests, lists and bit operations over the native numbers
--   LinkedList    core/list.c; a node is any value with an id, a list is the list of its nodes
--   Tlv           core/tlv.c; buffers are lists of bytes, integers are 64-bit patterns
--   Uri           core/uri.c; an `int` is a 32-bit pattern
--   Coap          the CoAP library that core/ calls, as an interface of operations and laws;
--                 Coap.Sample is an instance for the examples
--   Context       the records of core/liblwm2m.h and access through pointers
--   Callbacks     the callbacks of transactions: core/management.c, core/observe.c,
--                 core/registration.c
--   Transaction   core/transaction.c
--   Step          `lwm2m_step` of core/liblwm2m.c
--   Objects       core/objects.c
--   Registration  core/registration.c, the server's side; Registration.Payload is about its parser
--                 and the payload that core/objects.c prints
--   Register      core/registration.c, `lwm2m_register` and `registration_deregister`
--   Engine        core/liblwm2m.c: setting up and closing a context, and its servers
--   PlainText     core/utils.c: numbers as text
--   Reachable     the calls of an application as a step relation on the context
--   Observe       core/observe.c, the client's side, with the server's side in Observe.Notify
--   Management    core/management.c: the operations that a server asks of a client, and in
--                 Management.Requests what the client does with them
--   Packet        core/packet.c: what becomes of an answer; Packet.Requests: of a request;
--                 Packet.Blocks: blockwise transfer; Packet.Handle: the whole of a datagram
--   Resources     tests/client/object.c, the table of resources of the test client, its callbacks and
--                 the memory that they write; Resources.Build: entering resources and values;
--                 Resources.Handlers: the callbacks, with the records of an object in
--                 Resources.Dump; Resources.Device: tests/client/object_device.c;
--                 Resources.Applications: tests/client/applications.c
--   CommandLine   tests/utils/commandline.c
--   Console       tests/server/lwm2mserver.c: the commands of the test server
--   TlvDump       tests/TLV/decode.c
-- The Examples modules apply the theorems to concrete values.
--
-- State is passed explicitly. A pointer is the address that the record it points at carries, and
-- reading through a NULL or dangling pointer is the run `fault`. The outcomes of `malloc` and of
-- `gettimeofday` are arguments. Datagrams and calls of the application's callbacks are recorded in
-- the context, the newest first.
--
-- Bounds and fuel: the integer encoder runs at most 8 rounds, one for each byte of its buffer, and
-- the run that would need a ninth is an overrun; a decimal text takes 5 digits, enough for the
-- 16-bit ids that are printed, and 19 for the magnitude of a 64-bit integer; the parser of the
-- register payload has the length of the payload as fuel, and each round takes at least one byte
-- off; the dump of TLV records does not run out of fuel if it has more than the buffer has bytes. All
-- other loops are structural recursion.
--
-- Not modelled: externals/er-coap-13 is a third-party library. Sockets, `getaddrinfo`, `fprintf` and
-- the loops around `select` are input and output, and with them tests/client/lwm2mclient.c,
-- read_objects.c and status.c; so are the texts and tables that the programs print. `exec_run_fork` of
-- tests/client/applications.c, which cuts the arguments apart in place and starts a process, is an
-- outcome. Of core/, the security data of servers are left out; what `snprintf` makes of a floating
-- point number is a parameter. Memory that a list node of a register payload needs is taken to be
-- there. Freed memory is modelled where a later read through a pointer can meet it: the record is gone
-- from its list. The dump of TLV records is cut off where it recurses behind the buffer: the result is
-- `overread`, and nothing is said of what the code does from there on. `timeoutP->tv_usec`, which
-- `lwm2m_step` leaves as it was, is not part of the wait.
pub mod Prelude
pub mod LinkedList
pub mod Tlv
pub mod Uri
pub mod Coap
pub mod Context
pub mod Callbacks
pub mod Transaction
pub mod Step
pub mod Objects
pub mod Registration
pub mod Observe
pub mod Management
pub mod Packet
pub mod Register
pub mod Engine
pub mod PlainText
pub mod Reachable
pub mod Resources
pub mod CommandLine
pub mod Console
pub mod TlvDump
