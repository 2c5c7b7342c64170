-- ===== src/Lib.antt =====
-- Verification of cachefx: key-value caches with expiry, typed access to them, a factory that hands them
-- out by name, and a sweeper that evicts what has expired.
--
-- The parts, by file of the repository:
--
-- - cache/memory.go, the in-memory cache: Memory.antt. A `World` is the map from keys to pointers, the
--   default TTL, a heap of items (Go's *memoryItem, shared between the map and the calls in progress), and a
--   clock. Each method (Set, SetOrFail, Get, GetAndDelete, Delete, Cleanup, Drain, Close) is one function
--   of the same name, built from the private ones (getItem, getValue, cleanup, newItem) as in the source.
--   Memory/Valid.antt has the invariant, Memory/Spec.antt the reference store, which is a function from keys
--   to entries, Memory/Refines.antt, Memory/Gets.antt and Memory/Refinement.antt relate the two. In
--   Memory/Race.antt a Get is split between its locks, and any number of goroutines take turns; the files
--   below it follow the lock (Mutex.antt), the steps that are left (Ending.antt, Progress.antt), and what
--   a goroutine may remove (Safety.antt, Calm.antt, Survival.antt, Refreshed.antt).
-- - cache/options.go: Options.antt. An option is data, and applying it is what its closure does; the
--   closure of WithTTL reads the clock where the source calls time.Now.
-- - cache/errors.go, errors.go: Errors.antt, with the wrapping of fmt.Errorf and errors.Join and with
--   errors.Is. Message texts are kept as format strings, not rendered.
-- - cache/redis.go: Redis.antt, every method, on a state that is the clock of the program and the server; NewRedis
--   and its configuration are in Redis/Config.antt.
--   The server and the client library are arguments: Redis/Calls.antt lists the commands and methods that
--   the code calls, Redis/Scripts.antt has the two Lua scripts over those commands. What the documentation
--   of Redis says of the calls is a reference server in Redis/Documented.antt, with hashes whose fields
--   expire at a number of milliseconds, and Redis/Laws.antt says when another server and client follow it,
--   seen through a view of their state. What the documentation leaves open (the order of HGETALL, the
--   rounding of HTTL, the times that HEXPIREAT takes, whether there is an UNLINK) is an argument too.
--   Redis/Follow.antt and Redis/Methods.antt carry the scripts and the methods over to the reference;
--   Fields, Storing, Adding, Renewing, Evaluating, Reading, Asked, Draining and Deleting say what the methods do
--   there, and Redis/Interface.antt fills the interface. Redis/Failures.antt is about any client at all.
--   Redis/Within.antt and Redis/Isolation.antt follow the hashes of other caches on the same server, and
--   in Redis/Pipelines.antt and the files below it the server takes the commands of the pipelines of many
--   Sets in turns.
--   Redis/Lock.antt has the two commands of SetOrFail as two steps, Redis/Lock/Whole.antt puts them
--   together again, and Redis/Lock/Holding.antt and Exclusive.antt are about many goroutines that call it with one key.
-- - cache/cache.go: Cache.antt, the interface as a record of operations on a state, and Cache/Laws.antt,
--   what a client relies on; Memory/Interface.antt fills both with the memory cache, and
--   Redis/Interface.antt with the Redis cache. Cache/Plain.antt has the calls with no option, and the map
--   that both backends are to a client that makes no others; Memory/Plain.antt, Redis/Plain.antt and
--   Redis/Agreement.antt hold the two to it. Cache/Issue.antt has any call with its options.
-- - cache/typed.go: Typed.antt, over any cache. Marshal, Unmarshal, and what reflect says of the type are
--   an argument. Typed/Decoding.antt says what those make of the bytes of an entry, Reading, Trips and
--   Draining what Get and Drain make of it. The loop of Drain takes the map in the order of its list, since
--   Go leaves the order open.
-- - factory.go and config.go: Factory.antt. Wrappers and trackers are shared by pointer, so they stand on a
--   heap; the caches behind the wrappers work on a state that is an argument, which Factory/Backend.antt
--   fills with memory caches and Factory/RedisBackend.antt with Redis caches, as NewFactory does for its two
--   schemes. url.Parse and these constructors are arguments of NewFactory. Factory/Apart.antt is about the
--   hashes that the Redis caches of a factory use.
--   Factory/Registry.antt, Closing.antt and Lifetime.antt follow the trackers; Sweep.antt and Evicting.antt
--   say what CleanupAll does, for any caches and for those in memory.
-- - sweeper.go: Sweeper.antt. What the select of Run receives is a list of events, and what other
--   goroutines do between two of them is one of the events.
-- - module.go: Module.antt, with the calls of fx and fxutil as data.
--
-- Interaction: the factory builds a cache, wraps it and tracks it; Close of the wrapper closes the cache
-- and takes it out of the tracker; the sweeper calls CleanupAll, which calls Cleanup on every tracked
-- cache; a typed cache calls the methods of the cache that it is given.
--
-- Time is an integer of nanoseconds, and time.Now is the next reading of a sequence given from outside;
-- where a theorem needs it, the sequence is monotonic. Durations are not bounded to 64 bits: the deadlines of
-- the code are sums of a time and a duration, for which Go's Time has the room. No definition uses
-- fuel: all loops run over lists.
--
-- The Redis cache has two clocks: the program's, by which it makes its deadlines, and the server's, by
-- which fields expire. A script is one step of the server, and the theorems on Get take the server's clock
-- to stand still for it, as the documentation says. The seconds of a duration, which the code takes
-- through a float, are an argument.
--
-- Not modelled: what the fx container does with the module; contexts, which the in-memory cache ignores; the
-- intervals of the ticker; the interleaving of a sweep by the factory with other calls, and of the
-- commands to Redis but for those of Set and SetOrFail.
pub mod Prelude
pub mod Errors
pub mod Time
pub mod Dict
pub mod Options
pub mod Memory
pub mod Cache
pub mod Redis
pub mod Factory
pub mod Sweeper
pub mod Typed
pub mod Module
mod Tests
