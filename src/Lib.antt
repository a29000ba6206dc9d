-- ===== src/Lib.antt =====
-- immutable_cache: a PHP extension that shares immutable values between processes. A value that was
-- stored under a key stays there as it is until the shared memory goes away.
--
-- The parts of the program that are modelled, and where:
--
-- * Cache models the hash table of immutable_cache_cache.c and immutable_cache_cache.h. Cache/Entry
--   has the entry and the test of its key, Cache/State the header, the cache and the interface `Shm`
--   through which the cache uses `immutable_cache_persist`, `immutable_cache_unpersist`,
--   `immutable_cache_sma_free`, the serializer registry and PHP's string hash. Cache/Slots has the
--   functions that run under a lock (`immutable_cache_cache_wlocked_insert_exclusive`,
--   `immutable_cache_cache_rlocked_find` and its relatives), Cache/Operations the exported ones, and
--   Cache/Create the creation. A slot of the table is a list of entries in the order of their `next`
--   pointers. An exported operation takes a world, which is the cache (absent for NULL) and the
--   process that calls, and returns its result and the next world.
-- * Cache/Locks models the lock functions of immutable_cache_cache.h, and `SMA_LOCK` and its relatives
--   of immutable_cache_sma.c. Whether the operating system grants a lock is the parameter `Grant`.
--   The locks that a process holds are a list, so that a lock given back twice or not at all shows.
-- * Sma models the allocator in immutable_cache_sma.c, first one
--   segment of it: Sma/Words the macros on sizes, Sma/Blocks the memory as four maps from
--   offsets to the fields of `block_t`, Sma/Init the body of
--   `immutable_cache_sma_init` for one segment, Sma/Search `find_block`, Sma/Allocate `sma_allocate`,
--   Sma/Deallocate `sma_deallocate`. Sma/Heap has the functions over all segments, such as
--   `immutable_cache_sma_malloc_ex` and `immutable_cache_sma_free`, Sma/Info
--   `immutable_cache_sma_info` and Sma/Setup the settings that php_immutable_cache.c reads for the
--   allocator, and its start and end.
-- * Stack models immutable_cache_stack.c.
-- * Persist models immutable_cache_persist.c. Persist/Value has PHP's values as trees whose strings
--   and arrays carry their addresses, so that a value that is shared shows as the same address;
--   Persist/Memo the tables of pointers, Persist/Calc the calculation of the size
--   (`immutable_cache_persist_calc` and what it calls), Persist/Copy the copy, Persist/Entries
--   `immutable_cache_persist` and `immutable_cache_unpersist`. The sizes of PHP's structures, its
--   string hash and the serializers are the parameter `Php`. The source copies the slots of an array
--   and then changes them in place; the model builds the finished array. The model is for PHP from
--   8.2 on, and leaves out reference counts and type flags.
-- * Storage fills the interface `Shm` of the cache with the functions of Persist, over any allocator.
-- * Iterator models immutable_cache_iterator.c: the methods of the iterator, which fetches the
--   matching entries of the slots chunk by chunk. Iterator/Objects constructs and frees an iterator,
--   Iterator/Loop has the calls that PHP makes for a `foreach`.
-- * Serializers models the table of serializers in immutable_cache.c.
-- * Functions models `immutable_cache_add`, `immutable_cache_fetch` and `immutable_cache_exists` of
--   php_immutable_cache.c on top of the operations of Cache/Operations; Functions/SmaInfo has
--   `immutable_cache_sma_info`.
-- * Cache/Preload models the preloading of a directory of files in immutable_cache_cache.c. What the
--   directory holds and what PHP reads from a file are parameters.
-- * Startup models the start of the module and of a request in php_immutable_cache.c, which sets up the
--   allocator, registers the serializers, creates the cache, preloads files and sets the handlers;
--   Startup/Preloading and Startup/Started follow the cache through it.
-- * Mapping models `immutable_cache_mmap` and the loop of `immutable_cache_sma_init` that calls it,
--   over an operating system whose calls are a parameter. Mapping/Resources follows files and
--   descriptors, Mapping/Masks the mask for the names of files.
-- * Signals models immutable_cache_signal.c: the table of former handlers, the handlers that the
--   extension sets, and what one of them does when its signal arrives, as a list of effects.
-- * Primitives models the lock primitives: Primitives/Posix those over `pthread` locks with PHP's
--   blocking of interruptions and the locks on a file, Primitives/Spin the spin lock, whose
--   processes interleave exchange by exchange.
--
-- The proofs stand beside the code: Cache/Chains, Cache/View, Cache/Insert, Cache/Hit,
-- Cache/Store, Cache/Keeps, Cache/Immutable, Cache/Fetch, Cache/Release, Cache/Balance,
-- Cache/Listing, Cache/Info, Cache/Agreement and Cache/Exclusion speak of the operations by an
-- abstract view, a partial map from keys to entries without their hits and access time.
-- Sma/Distinct, Sma/Links, Sma/Tiles and Sma/Invariant have the invariant of a segment,
-- Sma/Find, Sma/Taken, Sma/Split and Sma/Outcome the search and the allocation, Sma/Heap/Total
-- the allocation over the segments. Sma/Held, Sma/JoinPrev, Sma/JoinNext, Sma/Pushed,
-- Sma/Coalesce, Sma/Way and Sma/Freed follow a block that is deallocated: it is one with its
-- free neighbours and goes to the front of the free list. Sma/Reuse takes an allocation back,
-- Sma/Heap/Free lifts it to all segments, Sma/Info/Lists and Sma/Info/Sums speak of the
-- information on the free lists. Persist/Equations has the clauses of the calculation and of the
-- copy, Persist/Tables, Persist/Agreement, Persist/Steps, Persist/TableSteps, Persist/Sizes,
-- Persist/Mode, Persist/Prepared and Persist/Reach prove that both come to the same size,
-- Persist/Contents, Persist/CopiedSlots, Persist/CopiedTables, Persist/Arrays and
-- Persist/Roundtrip that a copy has the contents of the original, Persist/Refusals which values
-- are refused. Persist/Slots, Persist/UsedSlots, Persist/Sealed, Persist/Sealing,
-- Persist/Immutable and Persist/Frozen show that there is nothing in an entry that could change.
-- Iterator/Scan, Iterator/Ready, Iterator/Loop and Iterator/Totals compare the chunks with the
-- items of all slots. Storage/Persisting shows that the code of Persist keeps the laws on which
-- the cache relies, Storage/Whole puts a fetch after a store, and Storage/Release
-- follows the locks and the protection of memory through an operation. Signals/Rehandled follows a
-- signal to its former handler, Primitives/Depth compares the lock functions with the locks of
-- Cache/Locks, Cache/Preload/Stored and Cache/Preload/Loaded say what a file and a preload
-- leave. Functions/Fetched and Functions/Names relate the functions to the abstract view of the
-- cache.
-- Tests stand in the modules named Examples.
--
-- Numbers are the native naturals. Words of 64 bits wrap around in `add64` and `sub64`; counters are
-- 64 bits wide. The platform is one of 64 bits whose locks fit into the padding of 64 bytes, without
-- the canaries of the debug build. The loop of `find_block` runs on fuel: two more than the length of
-- the free list are enough, and the theorems say so. The `foreach` loop over an iterator has more fuel
-- than there are matching entries, and its theorem says that it then ends.
--
-- The exported operations run one after the other: each takes its locks, works and gives them
-- back, so that interleavings inside of an operation are not modelled; only the exchanges of the
-- spin lock interleave. The functions that show the contents of the cache and of one entry to PHP
-- code, the information page, and the end of a module are not modelled.
-- The creation and destruction of one lock, the lock of Windows, System V memory, the sending of
-- signals and the clock are calls of the operating system: left out, or parameters.
pub mod Prelude
pub mod Cache
pub mod Sma
pub mod Signals
pub mod Primitives
pub mod Stack
pub mod Persist
pub mod Iterator
pub mod Serializers
pub mod Functions
pub mod Storage
pub mod Startup
pub mod Mapping
