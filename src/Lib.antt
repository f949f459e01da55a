-- ===== src/Lib.antt =====
-- The NFC emulator of the repository: an NFC controller that speaks NCI to a host, emulates four
-- tags and two peers, and carries LLCP with a SNEP service for the peers.
--
-- How the parts interact. A packet of the host reaches `nfc_process_nci_msg` (src/nfc-nci.c). A
-- command goes to the table of the device's state and group, and the handler changes the device and
-- answers with a response. A data packet goes to the active endpoint (`nfc_re_process_data`,
-- src/nfc-re.c), which hands it to a tag (src/nfc-tag.c) or to LLCP (src/llcp.c); an LLCP information
-- PDU for SAP 4 goes on to SNEP (src/llcp-snep.c). Notifications and unasked data go the other way.
--
-- Which file models which part:
--   Base, Memory, Bswap   C outcomes, arrays, buffers and byte order (src/bswap.h)
--   Rf                    src/nfc-rf.c and src/nfc-rf.h
--   Device                src/nfc.c and src/nfc.h
--   Ndef                  src/ndef.c
--   Llcp                  src/llcp.c and the data link of src/llcp.h
--   Snep                  src/snep.c and src/llcp-snep.c
--   Tag                   src/nfc-tag.c: Store writes and formats, T12, T3 and T4 answer commands
--   Base64                src/base64.c: the encoder, and Decode the decoder
--   Hci                   src/nfc-hci.c
--   Packet                the packet headers of src/nfc-nci.h and their constructors
--   Wire                  the packed structures of src/nfc-nci.h, as lists of fields
--   Re                    src/nfc-re.c: Link the LLCP handlers, Data the data packets, Transmit,
--                         Activation and Send what an endpoint sends
--   System, Nci           src/nfc-nci.c: Common, Config and Rf the handlers, Tables the dispatch,
--                         Notify the notifications, Run the controller as a whole,
--                         Session messages between the console and the host
--   Console               src/cmdline.c: Parse the arguments, Message the NDEF messages, Commands,
--                         Links, Notify and Tags the commands, Run all four of them
--   Nfcemu                src/nfcemu.c and src/cb.h: the entry points of the library
--   Tests                 runs on concrete inputs
-- A definition keeps the name of the C function, without the prefix of its file where its module
-- says it. A handler that changes a structure returns the changed record; the state of the whole
-- program is `System`, with the device, the table of endpoints, the tags, the file selected on the
-- type-4 tag, and the calls made into the host. A pointer into a table is an index, and NULL is
-- `none`. A packet buffer is a function from offsets to bytes, and a store keeps the low eight bits.
-- The queue of a data link is the list of its PDUs, or `none` as long as its head is zeroed.
-- A failed assertion, an access outside an array, a null pointer and the use of an unset variable are
-- the faults of `Result`. Unsigned arithmetic that can wrap is written out with `%`.
--
-- Bounds and fuel: every loop is recursion over the number of rounds that its C counter allows, or
-- over the list that it walks, so no loop needs fuel that could run out. The one exception is the loop
-- that prints a message, whose fuel is the number of bytes, of which each round takes three or more.
-- `Keeps m P` says that `P` holds if `m` ends without a fault, and `Returns m P` that `m` ends without
-- one and `P` holds.
--
-- What comes from outside: the callbacks of src/cb.h are events, and what the host answers to them is
-- a parameter. A function that the host is given is called once, with the device and a packet of the
-- host. Memory is taken to be available, and what it holds before anything is stored is a parameter.
-- The functions of the C library that the console uses for its line are definitions of the model.
--
-- Not modelled: logging except for the records that are printed of a message, the casts of src/ptr.h,
-- and the build files.
pub mod Base
pub mod Memory
pub mod Bswap
pub mod Wire
pub mod Console
pub mod Base64
pub mod Rf
pub mod Device
pub mod Ndef
pub mod Llcp
pub mod Snep
pub mod Tag
pub mod Hci
pub mod Packet
pub mod Re
pub mod System
pub mod Nci
pub mod Nfcemu
pub mod Tests
