-- ===== src/Lib.antt =====
-- NetBird Audit records who reaches which internal resource over a NetBird overlay network. A sensor
-- (internal/sensor) counts flows in a kernel map and posts them to the audit server; the server
-- (internal/server) keeps them in MySQL (internal/db), polls NetBird's API (internal/netbird) for
-- users, peers and resources, and serves the administrator behind a password, a one-time code and
-- sessions (internal/auth).
--
-- What models what:
-- Text, Netip, Time, Crypto and GoMap model what the code uses of Go's strings, fmt, net/netip, time,
-- encoding/base32, crypto/hmac, crypto/sha1 and maps. A text is the list of its bytes, a time is the
-- number of nanoseconds since the zero time, and an int64 is an integer over the native numbers.
-- Ports: portAllowed of internal/db/db.go.
-- Auth: internal/auth/auth.go. Sessions is the SessionStore, and Totp the passwords and codes. bcrypt
-- and the random source are parameters.
-- Db: internal/db/db.go. Setup has Open and Migrate, and Tables a record for each table that Migrate
-- creates. Query has the parts of the SQL statements as functions on lists of rows, Collation is the
-- order of texts of the server, a parameter with the laws of a total order, and Monad is the state
-- passing of the methods: each statement takes its answer from a list of outcomes, so that every
-- theorem speaks of every pattern of failures. Identity, VpnSessions, Resources, Matching, Flows,
-- Search, Audit, Statistics, Names and Reports have the methods, and Queries says which tables they
-- leave alone.
-- Bpf: sensor/bpf/audit.bpf.c. Packet reads the key of a packet from its bytes, Programs are the two
-- programs on the kernel map, and Kernel is the map under packets, evictions and deletions in any order.
-- Sensor: internal/sensor/sensor.go. Clock has monoNS and wallFromMono, Setup the choice of the
-- interface and the heartbeat, Flush the round that reports and deletes, and Run the set-up and the
-- rounds. The kernel map is a list that may change between the iteration and the answer.
-- Netbird: internal/netbird/client.go, over HTTP and JSON as parameters.
-- Server: internal/server/server.go. A handler maps a request and the state of the server and the
-- database to an answer and a new state. RateLimit and Login have the login, Access has requireAuth,
-- Admin the handlers that change the resources, SensorApi those for the sensor, Sync the poll of
-- NetBird, PageData, Pages and Views the pages, Template the functions that the templates call, Csv the
-- export, and Format the printing of sizes. Routes are the two servers with their routes, and Lifetime
-- is everything that can happen to a server and its database, as a step relation.
-- Cmd: cmd/audit-server/main.go and cmd/audit-sensor/main.go, from the environment and the arguments to
-- the configurations.
--
-- A method that holds its mutex from its first access to its last is one step; runs of steps stand for
-- their interleavings. The clock, the random bytes and the answers from outside are arguments. Text
-- that is not ASCII is taken byte by byte: the letter case and the white space of other letters are
-- left out. The loop of humanBytes has 64 units of fuel: each turn divides a uint64 by 1024.
-- Every other loop is a recursion on a list. MySQL rounds times to microseconds and refuses texts that
-- are too long for their column: the rounding is left out, and such a refusal is one of the failures.
-- An id is taken by every INSERT that does not fail. The map in the kernel evicts entries of its own
-- choice when it makes room for one: the keys are an argument of each packet that comes in.
--
-- Not modelled: the HTML templates and the scripts of internal/server/ui.go, which are texts; how
-- net/http, TLS, MySQL and the kernel do their work, of which only what the code sees is modelled; and
-- the shell scripts. A request, a poll and a run of a program in the kernel are each one step, so that
-- two handlers that run at once are not interleaved between their statements. Bytes of a path that
-- stand for others are left as they are when a route is found.
pub mod Prelude
pub mod Text
pub mod Netip
pub mod Ports
pub mod Time
pub mod Crypto
pub mod GoMap
pub mod Auth
pub mod Db
pub mod Netbird
pub mod Sensor
pub mod Bpf
pub mod Server
pub mod Cmd
