-- ===== src/Lib.antt =====
-- pyKA, a message broker over a durable append-only log (pyka/, Python), as definitions and theorems.
--
-- The parts, from the bottom up, with paths from the repository's root:
--
-- * Python models what the source uses of the standard library: Python/Struct the formats q, I and i
--   of `struct` over lists of bytes, Python/Zlib `crc32`, Python/Bisect `bisect_right` as the binary
--   search that it is, Python/File a file opened for reading, Python/Dict `dict` as pairs in the
--   order of insertion, Python/Text decimal numbers, UTF-8 and `str.format`.
-- * Storage/Record is src/pyka/storage/record.py: `encode`, `size`, `decode`, `read_one`.
-- * Storage/Index is src/pyka/storage/index.py: the entries in memory, the bytes of the .index file
--   and those not yet flushed.
-- * Storage/Segment is src/pyka/storage/segment.py: `open_segment` is the constructor with
--   `_recover`; `append`, `sync`, `close`, `read_from` and `has_room_for` keep their names. A
--   generator is an `Iteration`: the records that it yields and the exception that ends it.
-- * Storage/Log is src/pyka/storage/log.py: the list of segments as the sealed ones and the tail.
--   Each method is one step of the model: `append`, `roll`, `sync` and `close` hold the lock of the
--   log for their whole bodies. `read_from` holds it while it takes its snapshot of the segments; in
--   the model the segments do not change until its iteration is over.
-- * Topic/Partitioner is src/pyka/topic/partitioner.py, Topic/Policy is src/pyka/topic/policy.py.
-- * Topic/Name and Topic/Topics are src/pyka/topic/topic.py: `Topics` is the class Topic, with the
--   topic.json files as a dictionary; `existing` is `_topic`, `cached` the look into `_open` that
--   `create` and `append` share. The object finds what is in a partition's directory as its
--   parameter `files`. `Topics.Writing` has `route`, `append` and `close`,
--   `Topics.Whole` has `names`, `local_partitions` and `sync`.
-- * Cluster/Ring and Cluster/HashRing are the two classes of src/pyka/cluster/ring.py. What HashRing
--   inherits (`owns`, `my_partitions`, `routing_table`) takes the `broker_for` that it calls as a
--   parameter, and its theorems ask of it that every partition is routed to a broker. The hash
--   function is a parameter.
-- * Broker/Tail is src/pyka/broker/tail.py, Broker/Store is src/pyka/broker/store.py: a call in a
--   worker thread and what follows it on the event loop are one step.
-- * Broker/Messages has the messages of proto/pyka/v1/broker.proto. Broker/Handler is
--   src/pyka/broker/handler.py: `produce`, `produce_stream` and `metadata` are the calls of the same
--   names, `handle_append` is `_append`, `redirect` is `_redirect`; Broker/Handler/Consume has
--   `consume` and `read_batch` (`_read`). `context.abort` is a result of type `Abort`.
-- * Client is src/pyka/client.py. Client/Network is what it calls: the brokers behind their
--   addresses, the clock and `sleep`, as a record of functions on the state of the world, and a
--   parameter of every method. Client/Connection is the class _Connection: a `Method` changes the
--   connection and the world, `routing`, `await_topic` and `partition_for` keep their names.
--   Client/Producer has `send` (`attempt` is a round of its loop up to the answer, `handle` is
--   `_handle`) and `send_batch`, Client/Consumer has `consume` and `partitions`. Client/Admin
--   is the class Admin over urllib and JSON as a `Web`, which Client/Admin/Served puts before the
--   endpoints of Broker/Admin.
-- * Broker/Admin is src/pyka/broker/admin.py: an endpoint is a function from the store to a response
--   with a body or a status, and to the store after it.
-- * Cluster/Environ is `Ring.from_env`, with `int` and `isdigit` from Python/Number.
-- * Broker/Server is src/pyka/broker/server.py: `start`, `set_serving` and `stop` (`begin_stop`), over
--   a health service that is a parameter.
-- * Process is src/pyka/cli/broker.py. Process/Environment has `_store_from_env`. Process/Steps has
--   `serve` as a relation of steps: what it does between two awaits is one step, and in between the
--   calls in flight take theirs (Process/Calls, by the functions of Broker/Handler and Broker/Admin),
--   clients open and cancel calls, uvicorn binds its port or ends, the grace runs out.
--
-- A method that raises returns the error beside the state that it leaves. Exceptions are the
-- constructors of `Error` (Common/Results). Offsets and timestamps are integers, byte positions
-- natural numbers. Every loop takes fuel from the length of what it reads: a round of `recover_loop`
-- or `iter_loop` reads a record of 32 bytes or more, and the theorems show that the fuel suffices.
-- `bisect_loop` has a round for each element of the list that it halves, which suffices too, and
-- `decimal` one more than the number that it divides by ten. `consume_loop` has a round for each
-- entry of a list, which says what the other connections do before that round; `send_loop` and
-- `await_loop` are given a number of rounds, as nothing but the clock ends them.
--
-- Not modelled: errors of the operating system, that a power cut may lose the entry of a file in
-- its directory, directories other than as a list of files, a .log file with another name than
-- the twenty digits that Segment gives it, a segment that changes while a read is under way (a
-- read is of one moment), digits of `int` beyond ASCII, time (a clock reading is an argument),
-- the texts of errors, what gRPC, HTTP and JSON do on the network, what a worker thread does
-- after the logs are closed, generated code.
pub mod Common
pub mod Python
pub mod Storage
pub mod Topic
pub mod Cluster
pub mod Broker
pub mod Client
pub mod Process
