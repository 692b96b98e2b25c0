-- ===== src/Lib.antt =====
-- bacnet-go: a BACnet/IP client library in Go.
--
-- The program. `Client` (client.go) keeps a table of pending requests, a cache of devices, the COV
-- subscriptions and its metrics. A request is encoded as service parameters, APDU, NPDU and BVLC
-- header (protocol.go) and sent over UDP; the caller waits on a channel that stands in the pending
-- table under its invoke id. The receiver gives every datagram to `handlePacket`, which takes the
-- three headers off, caches the device of an I-Am, and delivers a response to the channel that waits
-- for it. The caller then decodes the parameters of the response.
--
-- The files, with the code that each models:
--   Wire/Tag, Wire/Number, Wire/Bvlc, Wire/Npdu, Wire/Apdu   protocol.go: tags, primitive values and
--                       the three headers
--   Text                protocol.go: character strings; Text/Utf8 is a description of UTF-8 to hold
--                       them against
--   BitString           bitstring.go
--   DateTime            datetime.go
--   Types/ObjectId, Types/Device   types.go: object identifiers, addresses, devices
--   Enumeration, Names, and the other files of Types and Errors   types.go and errors.go: the
--                       constants, their `String` methods, ParseObjectType, ParsePropertyIdentifier
--   Errors              errors.go
--   Options             options.go
--   Transport           internal/transport/udp.go
--   Service             client.go: the parameters of the services
--   Value               client.go: decodePropertyValue, encodePropertyValue
--   Response/Fields, Response/ReadProperty, Response/Skip, Response/Multiple   client.go:
--                       readUnsignedTag, decodeError, decodeReadPropertyResponse,
--                       skipToContextClosingTag, decodeReadPropertyMultipleResponse
--   Response/Acknowledgement   no code: what a server sends, the description that the decoders are
--                       held against
--   Client, Client/Receive, Client/Request, Client/Device   client.go and device.go: the state,
--                       handlePacket and its handlers, sendRequest, RegisterDevice, resolveDevice
--   Client/Lifecycle    client.go: Connect, Close, registerForeignDevice, a turn of receiver
--   Client/Service      client.go: sendUnconfirmedRequest, WhoIs, ReadProperty, WriteProperty,
--                       ReadPropertyMultiple, SubscribeCOV, UnsubscribeCOV, GetObjectList
--   Client/World        no code: a client and the calls that wait, as a relation of steps over the
--                       functions of the client, and the worlds that the steps reach
--   Client/World/Room   no code: the calls as a waiting room, without channels and a pending table,
--                       and the steps of the client as steps of the room
--   Client/World/Race   client.go: handleResponse as its two steps, among other calls and `Close`
--   Client/Receive/Discovery, Client/Device/Discovered   no code: the I-Ams of a Who-Is, and what
--                       WhoIs and resolveDevice make of them
--   Metrics             metrics.go
--   Version             version.go
--   Base, Go            shared names, and Go's slices, big-endian integers, errors and panics
--
-- How the code is read. A function returns a `Result`: a value, an error or a panic. An index or
-- a slice out of range is a panic; a slice is checked against the length, where Go allows the
-- capacity, so the model panics at least where the code does. An integer of w bits is a natural
-- number with its wrap-around written out; `int` is taken to have 64 bits, so that offsets, which
-- are bounded by the length of a datagram, do not wrap. Floats are IEEE bit patterns, strings are
-- lists of bytes (the names and the printed texts, which are compared whole, are native texts),
-- Go maps are association lists, channels live in a store and are shared by reference. A region
-- under a lock is one step.
--
-- Bounds. The loops of the response decoders are recursions on fuel, the number of bytes; a turn reads
-- a byte at least, and a loop without fuel is a panic, so that a theorem which excludes the panic
-- says that the fuel is enough. `GetObjectList` has the number of its turns as fuel.
--
-- Concurrency. An operation that waits is split where it waits: the part before, the part behind,
-- and in Client/World any order of them, of datagrams, of failures and of timeouts. `Connect`,
-- `Close` and the handling of one datagram are one step each, as `Close` waits for the receiver
-- and its goroutines before it closes a channel. What the network answers, the clock and the
-- answer of the transport are arguments. A Go map is iterated in the order of its association
-- list, and the theorem on ReadPropertyMultiple holds for any grouping. The choice of an invoke
-- id and its entry into the pending table are one step; a draw of an id outside a request, as
-- SubscribeCOV makes for its subscription, is a step of its own. Some theorems are on runs in which
-- no invoke id is given out while a call waits under it, which the code does not ensure. In
-- Client/World/Race the lookup of a handler and its send are two, and `Close` is a step that waits
-- until no handler is between them.
--
-- Not modelled: the polling of the socket in `receiver`, logging, the `String` method of status flags
-- (printing), LocalAddr of the transport (a call of the net package), the options and the transport
-- that NewClient puts into the client, the allocation in GetObjectList whose size is the length that
-- the device reports (it can exhaust the memory before an element is read), and the example program.
pub mod Base
pub mod Enumeration
pub mod Errors
pub mod Go
pub mod Types
pub mod Names
pub mod Wire
pub mod DateTime
pub mod BitString
pub mod Text
pub mod Value
pub mod Response
pub mod Metrics
pub mod Options
pub mod Service
pub mod Transport
pub mod Client
pub mod Version
pub mod Tests
