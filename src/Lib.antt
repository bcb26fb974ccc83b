-- ===== src/Lib.antt =====
-- Fort, an in-process limit order book simulator in C++ (README.md): its core as definitions, and
-- what makes them correct.
--
-- The program is a set of headers, luv_*.hpp, which main_engine.cpp puts together. A decoder turns
-- feed bytes into TickMsg records (luv_arena.hpp), which pass through a ring; LOBEngine
-- (luv_lob.hpp) applies each to the book of its symbol; the features, strategies and the execution
-- gateway read the book. The engine keeps the price levels of each side in an array of the arena,
-- sorted by price, the orders of a level in 16 slots that a doubly linked list chains, and a hash
-- table, OrderRefMap, from order references to slots. luv_numeric_limits.hpp bounds what passes
-- between them.
--
-- The files:
--
-- Base and its children hold what the others share: Boolean tests on the native numbers, arrays as
-- functions with an update, counts of array entries (Base.Count), and the integers.
-- Numeric is luv_numeric_limits.hpp; Numeric.Checked proves the overflow checks against the exact
-- integers.
-- Lob.RefMap is class OrderRefMap: the key and value arrays are functions, each probe a recursion
-- on the probe limit of 256, which is the source's loop bound; `find_slot`, `insert_probe` and
-- `can_insert_probe` are the loops of `lookup` and `remove`, of `insert`, and of `can_insert`. Its
-- children Probe, Indexed and Laws are about the probes and the table as a map.
-- Lob.Level is one PriceLevel: the slots, `alloc_slot`, and the functions of LOBEngine that change
-- one level (link_slot, unlink_slot, deactivate_slot, clamped_qty). Indices that are -1 in the
-- source are `none`. Level.Sums, Consistent, Enter and Steps are about its aggregates, Level.Chain,
-- Unlink, Listed and Queue about its list.
-- Lob.Ladder is the levels of one symbol and side with their counter from SymbolMeta: find_level,
-- and the two halves of insert_level_impl and of remove_level_if_empty. `search_level` is the loop
-- of find_level on fuel, one more than the levels, which Ladder.Search shows to be enough.
-- Lob.Book is the state of class LOBEngine with the parts that its handlers share: the levels, the
-- locations and the placement of an order; where two handlers share their text, so do their
-- functions (`reduce_order`, `delete_order`, `place_order`). Lob.Engine is a function for each
-- handler, `dispatch` for the switch of process_unlocked, `process` for one message and
-- `process_all` for a feed. Engine.Steps, Ensure, Orders and Invariant carry the invariant of the
-- book through them, and Engine.Query holds the query functions.
--
-- Itch is luv_decode_itch.hpp: Itch.Bytes its byte readers and the simulator's writers
-- (luv_feed_sim.hpp), Itch.Symbols its class SymbolTable with Symbols.Probe, Table and Laws, and
-- Itch.Decode the function decode_itch, one definition for each message type. Decode.Bounds is
-- about what the decoder accepts, and joins it to LOBEngine::process. Itch.Sim is the message
-- generators of luv_feed_sim.hpp, Sim.Roundtrip their messages in the decoder.
-- Execution.Risk is PreTradeRisk of luv_execution.hpp, a Boolean for each pass bit, and
-- Execution.Reserve the reservation of an order in the state of its symbol (reserve_order_slot,
-- release_order_slot). Execution.Limits and Roundtrip prove what a pass guarantees and that a
-- release undoes a reservation.
-- Execution.Stops is StopOrderTable, with the gateway that it calls as a parameter; Stops.Count,
-- Runs and Routes prove what its calls keep; Routes gives the gateway a log of what it refuses.
-- Transport.Mold is luv_moldudp64.hpp, with Mold.Blocks and Mold.Request for its proofs;
-- Transport.Ring is the packet ring of luv_net_ring.hpp, with Ring.Queue for its view as a queue;
-- Transport.Spsc is SPSCRing of luv_arena.hpp at the capacity of the tick ring, and Spsc.Steps the
-- interleavings of its producer and its consumer, as a step relation.
-- Market.Auction is AuctionCrossEngine of luv_auction.hpp, Auction.Prices and Auction.Optimal about
-- the price it finds, Auction.Orders about its table. Market.Luld is LuldEngine of luv_luld.hpp,
-- and Luld.Pause about its pauses over any quotes. Market.Contingent is ContingentOrderManager of
-- luv_contingent_orders.hpp; Contingent.Exclusive and Fill are its invariant, and Contingent.Reach
-- all that its calls can come to.
-- WebSocket is luv_websocket_parse.hpp: WebSocket.Utf8 is valid_utf8, whose Utf8.Encoding has the
-- encoding of RFC 3629 as a relation; WebSocket.Frame is the frame parser, its children Bounds,
-- Whole and Text about single frames, the fragment state and texts over several frames.
-- Stp.SelfTrade and Stp.Protection are the two classes of luv_stp.hpp.
-- Safety.Sequence, Safety.Breaker and Safety.Limiter are SequenceTracker, CircuitBreaker and
-- OrderRateLimiter of luv_safety.hpp. Sequence.Gaps proves what the tracker accounts for;
-- Breaker.Closed holds the invariant over all calls, and Breaker.Open how the breaker opens and
-- what it lets through then; Limiter.Bounds the bound.
-- The modules named Tests hold runs and concrete instances.
--
-- Machine integers: in the book, prices and quantities are exact integers, and the invariant bounds
-- the totals to int64_t, so that no sum of the source wraps; the uint64_t counters and the hash
-- wrap as written. The counters of the packet ring and the timestamps wrap as written. The walk of
-- link_slot to the tail has fuel 16, the slots of a level. The probe of SymbolTable::insert has no
-- bound in the source; its fuel is one turn of the table, which Symbols.Laws shows to be enough. A
-- sum, difference or product of int64_t that the source does not check, in the reservations, the
-- stop prices, the protection and the auction, wraps in the model (wrap64 of Base.Int), and the
-- theorems about them name what excludes an overflow, which C++ does not define. The ratios of the
-- pressure tiers, doubles in the source, are compared as products.
--
-- Not modelled: the memory order of the atomics (each call of a ring is one step), the HTTP
-- requests and the handshake, the random choices of the feed simulator, the lock of `process`, log
-- lines, mmap (whether it succeeds is an argument of `init`), and pricing and risk analytics on
-- floating point, regulatory reports, transport over sockets and files, and the drivers.
pub mod Base
pub mod Numeric
pub mod Lob
pub mod Execution
pub mod Transport
pub mod Stp
pub mod Safety
pub mod Itch
pub mod Market
pub mod WebSocket
