-- ===== src/Lib.antt =====
-- whad-lib, the C and C++ library of the WHAD protocol: a firmware queues protobuf messages on a
-- serial line, and reads the messages of the host from it.
--
-- The program and its parts, from the bottom up:
-- - src/ringbuf.c, inc/ringbuf.h: a byte ring in a fixed array of 1024 entries. Ringbuf.antt has
--   the struct and every function; Ringbuf/Queue is the bounded FIFO that the ring stands for,
--   Ringbuf/Invariant the bounds of the two indices, Ringbuf/Window and Ringbuf/View the reading
--   of the array from the tail on, Ringbuf/Refine and Ringbuf/Run the refinement of one call and
--   of a sequence of calls.
-- - src/transport.c, inc/transport.h: frames with a four-byte header over a receive ring and a
--   transmit ring. Transport.antt has the static gw_transport as a record that each function
--   takes and returns. Transport/Frame has the decoder of a byte stream, Transport/Receive, Poll
--   and Resync what whad_transport_get_message makes of a ring, Transport/Outgoing, Drain, Push
--   and Send what is queued and handed to the callback, Transport/Channel two transports that are
--   joined by a line.
-- - src/whad.c, inc/whad.h: messages over the transport. Whad.antt has every function, over a
--   record Nanopb that stands for pb_encode and pb_decode; Whad/Deliver carries a message over a
--   line.
-- - whad/protocol/board/board.pb.h, whad/protocol/whad.pb.h: the structs of the messages.
--   Protocol/Sensors, Pins, Inputs, Runtime and Streams have the structs of the Board domain,
--   Protocol/Kind and Payload the union with its tags, Protocol/Message the union of the domains.
-- - src/domains/board.c, inc/domains/board.h: 49 messages with a validator each, made by one
--   macro. Board/Validate and ValidateMore have the validators, Board/Codec the functions of the
--   macro, Board/WellFormed what each validator asks of its struct and what is promised of it,
--   Board/Decides and Conforms that the validators decide it, Board/Laws and Exchange the packing
--   and parsing, Board/EndToEnd all layers in a row.
-- - src/generic.c, inc/generic.h: command results, text messages and progress. Generic.antt has
--   every function; Generic/Exact says what they make and accept.
-- - src/discovery.c, inc/discovery.h: what a device says of itself and of its domains.
--   Discovery.antt has the functions, Discovery/Domains the searches of the array of domains,
--   Discovery/Exact the messages.
-- - src/cpp/message.cpp, inc/cpp/message.hpp: the wrapper that owns or borrows a message.
--   Cpp.antt has its constructors, destructor and accessors on a heap of messages; Cpp/Types says
--   how its two classifications agree.
-- - src/cpp/domains/board: one class for each Board message, of the same text but for the names.
--   Cpp/Board has their methods over the type of message, Cpp/BoardClasses the 49 classes,
--   Cpp/ClassLaws all of them at once, Cpp/Lifetime the objects from construction to destruction.
-- - src/cpp/domains/esb, unifying, dot15d4, phy and ble: the classes whose objects hold one value
--   beside the message, such as a channel or a power. Cpp/Setting has what they share,
--   Cpp/RadioClasses, Cpp/PhyClasses and Cpp/BleClasses the C functions that each calls,
--   Cpp/SettingKinds their names, Cpp/SettingLaws the life of an object, Cpp/SettingAgree what
--   the functions of each class read of what they wrote, Cpp/SettingTrips what each class gives
--   back.
-- - src/cpp/domains/ble/ble_channelmap.cpp: the map of channels. Cpp/ChannelMap has its
--   operations, Cpp/Channels the set of channels that it stands for, Prelude/Bytes the bits of a
--   byte.
-- - src/cpp/generic: the classes of the generic messages. Cpp/Generic has them, Cpp/Results what
--   they pack and parse.
-- - src/domains/esb.c and src/domains/unifying.c, inc/domains/esb.h, inc/domains/unifying.h:
--   messages for Enhanced ShockBurst and Logitech Unifying devices, which have the same structs.
--   Protocol/Radio has the structs, Radio.antt what the two files do alike with addresses and
--   packets, Radio/Laws that what is written is what is read; Esb.antt and Unifying.antt have
--   every function, Esb/Exact and Unifying/Exact what their parsers read of what was written.
-- - src/domains/dot15d4.c, inc/domains/dot15d4.h: messages for an IEEE 802.15.4 device.
--   Protocol/Dot15d4 has the structs, Dot15d4.antt every function, Dot15d4/Exact the commands,
--   Dot15d4/Received the packets received.
-- - src/domains/phy.c, inc/domains/phy.h: messages for a device at the physical layer.
--   Protocol/Phy has the structs, Phy.antt the builders, Phy/Parse the parsers, Phy/Time the
--   times of day as 32-bit numbers of microseconds, Phy/Frequencies the array of frequency ranges
--   with its encoding callback, Phy/Exact and Packets what is read of what was written.
-- - src/domains/ble.c, inc/domains/ble.h: messages for a Bluetooth Low Energy device.
--   Protocol/Ble has the structs, Ble.antt the commands, Ble/Modes those that write over what the
--   message holds, Ble/Events what a device reports, Ble/Sequence the prepared sequences,
--   Ble/Parse the parsers; Ble/Exact, Advertising and Sequences what is read of what was written.
-- - Prelude.antt and Prelude/: names of the libraries, Boolean tests, list operations and lemmas
--   over the native numbers, C integers, whad_result_t.
--
-- How the model stands to the code: a function that updates a struct through a pointer returns
-- the new struct beside its result; a pointer that may be NULL is an option; an output parameter
-- is a component of the result; a `static` variable is an argument. Bytes and counts are natural
-- numbers; an enumeration, which C lets hold any int, is an integer. A tagged union is a data
-- type. The Board domain reads a member only after its tag is checked; the parsers of esb,
-- unifying, dot15d4, phy and ble read the member that they expect whatever the tag says, so that
-- they take a view, a function from a message to what each member reads as, of which IsView in
-- the View module of each domain says that the member last written reads as it was written. A
-- byte array is its list with the size in use, so that bytes left from before are in the model;
-- the theorems on what is read compare the bytes in use. A loop is a recursion on the list of
-- bytes that it walks; no fuel is used. The sizes of a copy and a skip on a ring are natural
-- numbers where the transport calls them; Ringbuf.antt has both functions for every int as well.
-- The number of rounds in Transport/Drain and the number of calls in Transport/Poll are
-- arguments, and the theorems say how many are enough.
--
-- What is a parameter: nanopb (a codec whose output fits its buffer, and in Whad/Deliver, that
-- decodes what it encoded); the send callback, of which the model keeps the buffers that it was
-- given and whether it reports the end of the transmission before it returns;
-- whad_phy_message_free, of which Whad.antt keeps whether it is called, while Phy/Frequencies has
-- what it frees; memory for calloc and malloc; the view of a message, whose members the compiler
-- places: that the member written last reads as written, and that two structs of a union share
-- the fields they both begin with, as the C standard says, are its laws.
--
-- What is not modelled: interrupts between two statements of a function; the other C++ classes of
-- esb, unifying, dot15d4, phy and ble, which hold addresses, packets, PDUs, patterns, connection
-- parameters or sequences, or no value, and those of the discovery messages; an int size of an
-- address or a count of ranges that is negative; the encoding callback of the capabilities of a
-- device; the message pool of the BOARD_CLUE build; the field descriptors that nanopb generates.
pub mod Prelude
pub mod Ringbuf
pub mod Transport
pub mod Protocol
pub mod Whad
pub mod Generic
pub mod Discovery
pub mod Radio
pub mod Esb
pub mod Unifying
pub mod Dot15d4
pub mod Phy
pub mod Ble
pub mod Board
pub mod Cpp
