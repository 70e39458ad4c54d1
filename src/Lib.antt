-- ===== src/Lib.antt =====
-- Certificate storage for Caddy in Redis: storage.go, reconnect.go, crypto.go, compression.go,
-- certificate_observer.go, certificate_probe.go, and parts of caddyfile.go,
-- certificate_reporter.go and handshake_context.go.
--
-- The program keeps each value under a key of a Redis server, and an index beside it: every
-- directory of a key is a sorted set that holds the names of its keys, and those of its directories
-- with a slash behind. `Store` compresses and encrypts a value, writes its names into the index
-- (`storeDirectoryRecord`) and then the value; `Load` undoes this; `Delete` takes the names out
-- again as far as the sets become empty (`deleteDirectoryRecord`); `List` walks the index and
-- `Repair` rebuilds it. Every command runs through `withReconnectOnClosed`, which tries it once
-- more on a fresh client when the cached one is closed.
--
-- Beside the storage, the loads of a TLS handshake are watched. An observer pairs the fingerprints
-- of a host's certificate and of its key; if they differ, it hands a candidate to a sink, which
-- never waits. A `CertificateReporter` queues candidates, probes the host, and posts what it finds
-- to a fixed address, with two workers for all of its work; a `ConfirmingSink` probes before it
-- hands on.
--
-- Prelude       names passed on, Boolean tests, bytes; Go models what is used of Go's standard
--               library: strings, errors with their chains, strconv.Atoi, package path
-- Exec          the program's functions as actions on a state, errors as values; Exec/Laws takes
--               a successful run apart
-- Config        the fields of `RedisStorage`, the defaults and `New` (storage.go)
-- Platform      what is called outside the source: go-redis, the clock, the random source, files;
--               Platform/Redis states the documented behaviour of the commands
-- Client        `buildClient`, `initRedisClient` (storage.go), `Cleanup` (caddyfile.go); Built is about
--               the ways in which `buildClient` ends
-- Reconnect     reconnect.go
-- Directory     `prefixKey`, `splitDirectoryKey`, `storeDirectoryRecord`, `deleteDirectoryRecord`,
--               `existsKey` (storage.go); Directory/Index says when an index is sound, the other
--               modules below it are about writing a record (Store, Stored) and removing it
--               (Delete, Removed, Pruned)
-- Crypto        crypto.go, with AES-GCM as a record of operations and its laws in Crypto/Laws
-- Compression   compression.go, with the codecs as a record of operations
-- Storage       `Store`, `Load`, `Delete`, `Exists`, `Stat` (storage.go); Storage/Sound is the
--               invariant of values and index, Put and Drop are about one key, Effects,
--               Retried and Ends about whole operations, RoundTrip, Loaded and Stored about reading back
-- Listing       `List` and `Repair` (storage.go); Listing/Flat is about one directory
-- Locks         `Lock`, `tryObtainLock`, `Unlock` (storage.go)
-- Caddyfile     the entries of a block, and the checks on the prefix, the client name and the keys
--               for decryption; Final is `finalizeConfiguration` (caddyfile.go)
-- Dict          Go's maps with strings for keys, as association lists
-- Health        the checks of host names and issuers, and the candidate (certificate_observer.go)
-- Observer      `Observe` (certificate_observer.go); Certificate and PrivateKey below it are about
--               fingerprints, Bounds and Evidence about what is counted and reported
-- Reporter      `TryEnqueue` and `prune` (certificate_reporter.go); Loop is about `run`, `start` and
--               `stop`, Process about `process`, Deliver about `deliver`, Acceptance about the
--               parser of an answer, Identifier about identifiers and tokens. Workers is the
--               step relation of a state with its two workers; the other modules below are proofs
-- Probe         `Check`, `Confirm` (certificate_probe.go), `HandshakeContext`
--               (handshake_context.go); Sink is the step relation of `ConfirmingSink`,
--               Safe and Over are about what can be reached and about its end
-- Tests         a server in memory that obeys the laws, and runs of the program on it
--
-- A function of the program is a function of the same name in snake case. A method takes the
-- configuration, or `RedisStorage`, as an argument; its calls are composed in the order of the
-- code. The state is a `Machine`: the world behind the platform, and the count of reconnects as
-- the bit pattern of an int64. A time is a number of nanoseconds, a score the number of seconds (a
-- float64 holds it exactly), a byte a number below 256, a string a list of bytes.
--
-- Parameters beside the platform: AES-GCM, the codecs, encoding/json, Caddy's replacer and errors
-- with a place, redislock, package net, strings.TrimSpace with its table of Unicode spaces, the
-- verb %q; the decoders of PEM, ASN.1 and X.509, curves and SHA-256; the JSON decoder and the RFC
-- 3339 layout. What the clock, the probe, the random source and the server answer in one run of
-- `process` or `Check` is their argument, so that a theorem is about every answer. A wall clock
-- and its monotonic reading are one.
--
-- The steps of a worker are its begin, its test of the context, its turn under the lock, the end of
-- `process` with what that has made of the work, the end of a wait, and its own end. The counters
-- that `process` raises are raised at its end, in one step. The steps of a `ConfirmingSink` are the
-- test of an offer and the begin of its probe, between which the lock is held; the probe's test of
-- the context, its offer to the sink behind, and its deferred end, and other steps may come
-- between; `Close`, and the end of the context.
--
-- The recursion over the directories of a key runs on fuel, two more than the key's bytes, which
-- are more than its directories. `List` and `Repair` take their fuel as an argument: the depth of
-- the tree, and the rounds of SCAN, are the server's. A run without enough fuel is `out_of_fuel`.
-- The parser of an acceptance reads at most five members, since a fifth key is a second one of its
-- name or an unknown one.
--
-- Not modelled: log lines and metrics but for the count of reconnects and a reporter's diagnostic,
-- the contexts of the storage but for the end of a wait for a lock, the lexer of Caddyfiles and the
-- module's registration, the JSON of single fields, the registry of reporters (`Start`, `Handle`,
-- `Stop`) and their `validate`, and the HTTP client of a reporter.
pub mod Prelude
pub mod Go
pub mod Exec
pub mod Dict
pub mod Config
pub mod Platform
pub mod Client
pub mod Reconnect
pub mod Directory
pub mod Crypto
pub mod Compression
pub mod Storage
pub mod Locks
pub mod Listing
pub mod Caddyfile
pub mod Health
pub mod Observer
pub mod Reporter
pub mod Probe
mod Tests
