-- ===== src/Lib.antt =====
-- liblpm: a C library that finds, for an IP address, the next hop of the longest prefix that covers it.
--
-- The program's parts
-- An application makes a trie for IPv4 or IPv6, adds and deletes prefixes, and looks addresses up.
-- Four algorithms do this, each with its create, add, delete and lookup functions: DIR-24-8
-- (src/dir24) and 8-bit strides (src/4stride8) for IPv4, a first stride of 16 bits (src/wide16)
-- and 8-bit strides (src/6stride8) for IPv6. All work on one struct, `struct lpm_trie` of
-- include/lpm.h, take their nodes from the pools of src/core.c, and are called through src/api.c,
-- which looks at the trie to see which algorithm it was made for. The lookups of the tries come in
-- variants for the instruction sets of x86, and a resolver picks one when the program is loaded.
--
-- Which file models what
-- Base      lists, order, Boolean tests and names of the libraries that the other files share.
-- Bits      `&`, `|` and masks of the C code as arithmetic, at every width.
-- Word      `uint8_t` to `uint64_t` as numbers with the wrap-around written out, and the constants
--           of include/lpm.h (LPM_VALID_FLAG is `valid_flag`, and so on).
-- Simd      the levels that a resolver distinguishes.
-- Trie      `struct lpm_trie` (`Trie`), its arrays as functions from an index to the contents, and
--           the allocator. A pointer that the code compares with NULL has a flag `has_...`.
-- Rib       the specification: a list of routes, and `longest`, the next hop of the longest route
--           that covers an address, the latest one among routes of one length.
-- Dir24     src/dir24/core.c, and in Dir24/Lookup src/dir24/single.c, in Dir24/Create the
--           create function. The other children hold the invariant (`IsValid`: every entry that
--           is extended points at a group of its own) and the lemmas on add and delete; Effects has the
--           answers after an operation, Refusal the reasons for -1, Reach the tables that calls in
--           any order lead to. An add of Reach converts its next hop to `uint32_t`.
-- Pool      pool_grow, wide_pool_grow, node_alloc and wide_node_alloc of src/core.c.
-- Prefix    prefixes as bytes: the whole bytes, then the upper bits of one byte; Prefix/Value
--           reads bytes as a number, as Rib has them.
-- History   prefixes added one after the other to a trie of some kind, given what one add does to the
--           routes of that kind (`Kind`, `IsAdd`), and in History/Reach any sequence of calls.
-- Stride8   src/4stride8/core.c and src/6stride8/core.c (which hold the same loops), and in
--           Stride8/Lookup the single.c of both. Tree and Valid hold the invariant `IsTrie`: the
--           nodes in use are a tree, so that a node is met at one level and with one path; Open,
--           Fill and Store what the pieces of an add do to the routes that an address meets; Add,
--           Remove and Search the operations; Lpm the longest match of a history of prefixes; Reach
--           the tries that calls in any order lead to.
-- Wide16    src/wide16/core.c, and in Wide16/Lookup src/wide16/single.c. Valid holds the invariant
--           `IsWide`: below the entries of the wide root the nodes are a tree as in Stride8, and no
--           entry of the wide root leads to a wide node; Hook and Open the first node below an
--           entry, Paint and Fill the stores into the wide root; then as in Stride8.
-- Batch     the batch.c files. Blocks has the loops over whole blocks and lanes, Lanes and Variants
--           the loops of src/4stride8 and src/6stride8, Wide16 those of src/wide16, Dir24 and
--           Gather those of src/dir24, Public the functions that build the pointer arrays. Agree,
--           WideLanes, WideAgree, GatherAgree and GatherResolve compare them with the single
--           lookups, Longest one of them with the longest match. A vector is a function from the
--           lane to its value.
-- Cache     lpm_fast_hash, lpm_cache_probe and lpm_cache_store of include/internal.h, which
--           nothing in the library calls.
-- Api       src/api.c, and lpm_create and lpm_cache_invalidate of src/core.c.
-- Lua       bindings/lua/src/liblpm_utils.c, which reads addresses and prefixes from text: Text what it
--           uses of the C library, Ipv4 and Ipv6 the parsers; Print, Cidr and Network the text of an
--           IPv4 prefix and what is read of it, Rounds the loop over the groups of an IPv6 address,
--           Accepted what any accepted text gives.
-- Php       bindings/php/liblpm.c: Prefix reads prefixes, Table has what the methods and the functions
--           on a resource share, Methods the three forms of each; Run is any sequence of calls,
--           Script the calls of insert as adds to a trie, Longest the longest match of what they
--           have inserted. It uses the C library of
--           Lua/Text.
-- Tests     the theorems at concrete arguments, and runs of the code.
--
-- How state and operations correspond
-- A function `lpm_f` of the code is `f` here. It takes the trie and returns the new one, with `ok`
-- or `failed` for the int 0 or -1. A loop counts down the rounds it has left, which the code fixes
-- before the loop starts: 2^(24-len) entries, 256 entries of a group, len/8 complete bytes, 4 or 16
-- bytes of an address. The loop over the groups of an IPv6 text (Lua/Ipv6) alone is bounded by fuel: 10
-- rounds, one for each of the eight groups, one for `::` and one for the last test.
--
-- What is a parameter
-- malloc, aligned_alloc and realloc are an `Allocator`: it says of each size whether a request is
-- granted, the same for every request of that size, and what stands in new memory. The SIMD level
-- that the dynemit library detects is an argument of each lookup, and the macros that the build
-- defines (LPM_IPV4_DEFAULT_dir24 and so on) are an argument of the create functions.
--
-- The theorems on adding to tries of 8-bit and 16-bit strides assume that malloc never grants 2^41
-- bytes or more (`IsBounded`): an index of a node then fits in the 30 bits that an entry has for it.
--
-- inet_pton is an argument of the PHP table (`Pton`), and so is what emalloc leaves in its arrays.
-- What `%u` of sscanf stores for a number that no unsigned int holds is an argument (`Beyond`).
--
-- A gather instruction takes its indices as signed. What it reads in front of an array is an
-- argument (`stray`); behind the array it reads whatever the table's function gives. What the arrays
-- of pointers hold before they are filled in is an argument too (`stale`).
--
-- What is not modelled
-- lpm_lookup_batch_ipv4_dir24_bytes, which casts addresses to pointers; lpm_destroy, the version and
-- the printed statistics; cache_hits, cache_misses and the huge page fields, which no function changes;
-- prefetching, which has no effect on results; the bindings but for the text
-- parsers of the Lua one and the tables of the PHP one, benchmarks and tests.
pub mod Base
pub mod Bits
pub mod Word
pub mod Simd
pub mod Trie
pub mod Rib
pub mod Dir24
pub mod Pool
pub mod Prefix
pub mod History
pub mod Stride8
pub mod Wide16
pub mod Batch
pub mod Cache
pub mod Api
pub mod Lua
pub mod Php
pub mod Tests
