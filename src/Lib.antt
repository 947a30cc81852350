-- ===== src/Lib.antt =====
-- A distributed store of data frames, written in C++: columns of optional values under a schema,
-- rows and rowers over them, a byte form for all of these, packets over TCP connections, and on
-- every node a key-value store that asks the other nodes for what they hold.
--
-- The parts, from the bottom up, with their sources and the files that model them:
--
--   Prelude (Tests, Lists, Outcome, Literals): Boolean tests, lists and numbers, and the results of
--     code that can fail. `Run A` is `ok` of a value or `fault` of the way the program stops: a
--     reader that runs out of bytes throws (`short_data`), an assertion or `exit_if_not` fails
--     (`assertion_failed`), `std::get` meets another type (`bad_variant`), `at` an index out of
--     range (`out_of_range`), or the code does what the language leaves undefined (`undefined`),
--     such as reading behind a buffer or through an empty optional. The one exception is a `Row`.
--   Serializable (include/util/serializable.h): bytes of words, strings and bit sets. A reader
--     takes all the bytes and a position and returns the new position, as `size_t& pos` does.
--   NullableArray (include/data/nullable_array.h): the vector of flags and the vector of values.
--     Its view is the list of optionals.
--   Column (src/data/column.cpp): the four classes as the four constructors of one type.
--   Schema (src/data/schema.cpp): types and names of the columns. `_length` is the field `rows`.
--     Schema/Hash and DataFrame/Hash have `hash`.
--   Row (src/data/row.cpp): the variant values of one row; Row/Compare has `equals` and `hash`. The
--     constructor makes the string of types from an uninitialised array and writes the types behind
--     its end, which the language leaves undefined. The model is that of GNU's library, in which every
--     string has room for 15 characters: with at most 15 columns the types are read back as they were
--     written, and with more `of_schema` is `undefined`. `FitsRows` is that bound for a frame.
--   DataFrame (src/data/dataframe.cpp): a schema and a list of columns. A rower is a record of
--     functions on a state of its own; `map`, `pmap` and `filter` pass that state on. `pmap` gives
--     every thread its own state and runs them one after the other, since each writes no state but
--     its own. A clone that is null fails the assertion, or has
--     `pmap` fall back to `map`, as the code has it.
--   Packet (src/network/packet.cpp): a type, a length and a value, and the two readers.
--   Connection (src/network/connection.cpp): the receive buffer of 4096 bytes and what is taken out
--     of it, `receive_and_parse` and `_send_packet`. What `recv` and `send` return are arguments.
--   KvStore (src/data/kvstore.cpp, include/data/kvstore.h): the tables of one node. The hash tables
--     are association lists. KvStore/Arrays models `from_array` and `from_scalar` of
--     src/data/dataframe.cpp.
--   CtcConnection (src/network/ctc_connection.cpp): requests for values, their responses, and lists
--     of keys, between two nodes. A response for a request that
--     waits goes through an iterator that was just erased, and is `undefined`; one for which none
--     waits is an error. The packets that a step sends are a part of its result. In
--     CtcConnection/Life the relation `LivesTo` takes the steps of `run` and of the node's other
--     threads in any order.
--   NetPort (src/network/netport.cpp): the list of connections with a thread for each, and the loop
--     that waits for connections. The virtual functions are a record, which Server/Port and
--     Client/Port fill. What other threads do meanwhile is a part of a round. `close_all` runs in the
--     destructor of the base class, where the clean-up of a finished connection is `undefined`. The
--     thread of a client's connection to the server is not one of the list's.
--   Server (src/network/server.cpp, src/network/server_connection.cpp): the list of registered
--     clients and the note that there is an update of it. `deliver` is the rounds of the
--     connections in the order in which they run.
--   Client (src/network/client.cpp, src/network/cts_connection.cpp): what a client makes of that
--     list: its connections to the other clients, and the one that a value is asked for on. Which of
--     their threads have ended by the assertion there is an argument.
--     Client/Session is the connection to the server, from the registration to the shutdown.
--   Adapter (src/adapter/sorer_dataframe_adapter.cpp): a frame out of a file. The parser,
--     `std::stoi` and `std::stod` are arguments, and an exception of theirs is `none`.
--   Options (src/util/wordcount.cpp, src/util/linus.cpp, src/util/demo.cpp): the three
--     `parse_arguments`.
--   WordCount (src/util/wordcount.cpp): the rower that counts words, the splitting of lines into
--     words, and the counting of what was read.
--   Linus (src/util/linus_rowers.cpp, src/util/linus.cpp): the set of a frame's integers, the
--     filters that write what they pick into one frame from all threads, and the degrees of
--     `_commits`. What a thread writes is a log first; the step relation `Writes` takes the logs
--     apart in any order. Linus/Stores has the loop of `_commits` with the keys under which it
--     stores its frames, as a relation.
--   Demo (src/util/demo.cpp): the producer, the counter and the summarizer, and the rower that
--     sums. What a double is, is an argument, the record `Doubles`; Demo/Sums says of it that the
--     sums of the numbers that occur are exact, as those of integers below 2 ^ 53 are.
--   Examples: the theorems applied to small inputs.
--
-- A frame that is asked for goes through all of it: `get_requested_value` looks the key up in the
-- KvStore and writes the DataFrame's bytes into a Packet, the Connection takes the packet out of
-- the other node's buffer, and `parse_request_response` reads the frame for the request that waits
-- under the key: it comes as far as the use of the erased iterator.
--
-- Numbers are natural numbers; `size_t` arithmetic that can wrap has its remainder modulo 2 ^ 64
-- (`size_max`) written out, and byte forms are taken to be shorter than that. An `int` is the
-- number of its four bytes, so the result of `unpack` is its position modulo 2 ^ 32, and a `double` the number of its eight: they are tested for equality,
-- and other operations on a `double` are arguments. Characters are bytes. Words are little endian,
-- as on the machines that the program is built for.
--
-- The loop that takes a packet out of the buffer has fuel, one unit for each round. The loop over a
-- list of keys has one unit more than the list has bytes, and every name takes at least eight; so
-- has the loop over a list of addresses, of sixteen bytes each. The loop over the rows of a file
-- has one unit for each row and one more for the row that cannot be read.
--
-- Mutexes make each operation one step. Not modelled: the watchdog, which is turned off, sockets,
-- printing, the choice of addresses in the three `_run`, and the counts of references that the
-- filters assert. The library that reads files in SOR format is not among the sources.
mod Prelude
pub mod Serializable
pub mod NullableArray
pub mod Column
pub mod Schema
pub mod Row
pub mod DataFrame
pub mod Packet
pub mod Connection
pub mod KvStore
pub mod CtcConnection
pub mod NetPort
pub mod Server
pub mod Client
pub mod Adapter
pub mod Options
pub mod WordCount
pub mod Linus
pub mod Demo
pub mod Examples
