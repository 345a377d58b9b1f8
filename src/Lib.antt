-- ===== src/Lib.antt =====
-- A verification library for the burst-resilient feed handler and order book engine.
--
-- The program reads length-framed ITCH 5.0 messages (a FeedSource), parses them into MarketEvents,
-- passes these through a ring to a consumer thread, which puts them in sequence (Sequencer),
-- applies them to a price-banded limit order book (OrderBook) and publishes changes of the top of
-- book.
--
-- Files and what they model:
-- - Event: include/feedhandler/market_event.hpp, the types of events.
-- - Bytes: include/feedhandler/detail/byte_read.hpp, the big-endian loads and stores.
-- - Itch: src/itch_parser.cpp (message_length, parse), with one function for each case of the
--   switch.
-- - ItchGen: tools/itch_gen.cpp, the lambdas that write messages, and ItchWriter::emit.
-- - FileSource: src/itch_file_source.cpp (next_frame) on the bytes of the mapping.
-- - Sequencer: src/sequencer.cpp (offer, pop_ready, resync_to_snapshot). Sequencer/Buffer is its
--   unordered_map, as an association list; Sequencer/Drain is what `handle` of src/pipeline.cpp
--   does with the sequencer, and what goes to the book; Sequencer/NoLoss and Sequencer/Recovery
--   have the laws of a stream that loses nothing and of a stream after an overflow.
-- - OrderBook: src/order_book.cpp. Types (the data), Pool (OrderPool), Links (link_back, unlink),
--   Price (the constructor, to_index, to_price), Best (the rescans and is_crossed), Orders
--   (on_add, remove_order, reduce_order, apply), Levels (set_level, observe_event_boundary,
--   reset), View (best_bid, best_ask, depth_bids, depth_asks, spread_ticks). The children of these
--   (Links/Fifo, Pool/Nodes, Levels/Top and others) hold laws only.
-- - LiveFeed: apps/live_feed.cpp. LiveFeed is the consumer's loop (receive, the tests on the
--   update ids, re_snapshot); LiveFeed/Decode reads snapshots and updates (fetch_snapshot,
--   push_op), LiveFeed/Bootstrap makes the band of a session, LiveFeed/Settings has the markets,
--   symbols and environment; the other children hold laws. OrderBook/Levels/Shown is the
--   price-level book as a map from indices to a side and a size.
-- - Histogram: include/feedhandler/instrumentation.hpp, LatencyHistogram, with the 32-bit wrap of
--   its int arithmetic on indices; the laws are for layouts of up to 2^24 sub-buckets in a half
--   (sig_figs up to 7). Histogram/Snapshot is its snapshot.
-- - OrderBook/Heap: the invariant of the order-by-order book as a whole (index, nodes, free list
--   and levels agree on one list of live orders). OrderBook/Spec: the abstract list of orders and
--   what each type of event makes of it; OrderBook/Spec/Apply relates apply of src/order_book.cpp
--   to it.
-- - Ring: include/feedhandler/spsc_ring_buffer.hpp. push and pop are put together from their
--   accesses to shared memory (Ring); Ring/Threads lets a producer and a consumer interleave at
--   each of these. Ring/Channel: SpscChannel.
-- - Publisher: include/feedhandler/publisher.hpp (same, on_update).
-- - Pipeline: the consumer thread of src/pipeline.cpp (apply_ev, handle, the receive loop).
--   Pipeline/Ingest: the producer thread (the read loop with its gap injection). Pipeline/Shown:
--   from the arrival of a message to the orders that the book shows.
-- - Base: names of the libraries, tests, lists, integers, machine words, scans over an index range
--   and the cached result of a scan.
--
-- How state is modelled: a class is a record, a method a function from the record to its result and
-- the new record. Counters are natural numbers with the wrap-around of their width written out
-- (add64, inc64, inc32 and others). Prices are integers, of which the magnitudes the book meets are
-- far within 64 bits. A pointer to an Order is an address or none, the memory a function of the
-- address; slot i of chunk c has the address c * chunk + i. A vector or map indexed by numbers is a
-- function. What comes from outside the repository is an argument: the answers to snapshot
-- requests, the conversion of strings to numbers, `__builtin_clzll`.
--
-- Fuel: `drain` runs on one round more than the reorder buffer has entries, since each round but
-- the last takes one out; `read_all` takes its fuel as an argument, and one more than the bytes
-- that are left is enough, since each frame takes two bytes or more. `drain_into`, of the consumer,
-- has the fuel of `drain`. The spin of a blocked `send` goes on for the tries that are given, each
-- with what the other thread does before it: where these run out the answer says that `send` has
-- not returned.
--
-- The histogram's loops over powers of two have 64 rounds, since each round doubles a number of 64
-- bits.
--
-- Threads: Ring/Threads lets the two threads' accesses to the ring alternate in any order, each
-- access seeing the newest store, as the acquire and release orders of the source make it for the
-- indices and the payload. The capacity of the ring is 2 ^ k, as its static_assert demands.
--
-- Not modelled: system calls and file mapping, wall-clock pacing, threads other than as said above,
-- the live feed's network code, its JSON parser, its symbol switch and its dashboard, floating
-- point, the command-line programs and the benchmarks. noexcept, reserve and memory exhaustion are
-- left out as well.
pub mod Base
pub mod Bytes
pub mod Event
pub mod FileSource
pub mod Histogram
pub mod Itch
pub mod ItchGen
pub mod LiveFeed
pub mod OrderBook
pub mod Pipeline
pub mod Publisher
pub mod Ring
pub mod Sequencer
