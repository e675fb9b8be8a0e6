-- ===== src/Lib.antt =====
-- latentspeed: the order path of the trading engine, from a message that was received to the
-- reports that are published, and the data structures that it stands on.
--
-- The engine (src/trading_engine_service.cpp) takes orders from a socket, decodes the action,
-- checks the order, calls the adapter of its venue and publishes acceptances and rejections; two
-- callbacks bring the venue's order updates and fills, which the Hyperliquid adapter
-- (src/adapters/hyperliquid_adapter.cpp) reads from its private stream. The engine's state lives in pools of cells, sorted
-- arrays and a ring of messages (include/hft_data_structures.h). Texts pass through a symbol mapper,
-- a reason mapper and helpers for numbers.
--
-- Which file models what:
--   Hft/FixedString    class FixedString<N>: assign, clear, view, == and <
--   Hft/SpscQueue      class LockFreeSPSCQueue: try_push, try_pop, empty, size. Spec is the queue
--                      that it implements; Interleaved has the loads and stores of one producer
--                      and one consumer as steps, under sequential consistency
--   Hft/MemoryPool     class MemoryPool: the free list, the allocation marks and the count
--   Hft/FlatMap        class FlatMap: find, insert, erase over any ordered key. Spec is a search
--   Hft/Stats          struct HFTStats
--   Nonce              include/adapters/hyperliquid_nonce.h: next and fast_forward_to_now as atomic
--                      steps of any number of threads
--   Dispatch           include/action_dispatch.h
--   Symbol             src/core/symbol/symbol_mapper.cpp
--   Reasons            src/core/reasons/reason_mapper.cpp and include/reason_code_mapper.h
--   NumString          include/core/util/num_string.h
--   Engine/Types       the records of the two headers, the adapter's interface and the state
--   Engine/Text        the helpers at the top of trading_engine_service.cpp, and VenueRouter
--   Engine/Publish     publish_*_hft, send_acceptance_report_hft, send_rejection_report_hft
--   Engine/Place       place_cex_order_hft; Engine/Cancel and Engine/Replace likewise
--   Engine/Parse       parse_execution_order_hft after the JSON was read
--   Engine/Process     process_execution_order_hft, and one message of hft_order_receiver_thread
--   Engine/Update      on_order_update_hft; Engine/Fills: on_fill_hft
--   Engine/Dto         src/engine/exec_dto.cpp, over the tree of Json
--   Engine/Serialize   serialize_execution_report_hft and serialize_fill_hft
--   Engine/Publisher   the rounds of hft_publisher_thread
--   Engine/Startup     the takeover of open orders in initialize
--   Engine/Fallback    to_hyphen_symbol, normalize_symbol_compact and the reason helpers
--   Engine/Answers     place and replace side by side, for the reports that they send
--   Engine/Invariant   the maps of pending and processed orders through the handlers
--   Hyperliquid/...    src/adapters/hyperliquid_adapter.cpp, placement and private stream:
--     Text             the helpers at its top
--     Ids              the maps of ids behind cloid_map_mutex_
--     Dedupe           the window of fills that were seen
--     Stream           the members, the execution cursor, the event-driven reconnection
--     Updates          orderUpdates; UserFills: userEvents and userFills
--     Handler          the handler of install_ws_subscribe_handler as a whole
--     Price            snap_and_format_perp_px and the prices of orders without one
--     Placement        place_order: the class of an order, the gate, its asset, type and price
--     Batch            the branch of place_order that queues an order for the batch thread
--     Place            place_order as a whole, with the bracket; Reply: what an answer is taken for
--     Cancel           cancel_order and modify_order; Query: query_order
--   Rolling            include/rolling_stats.h, class RollingStats
--   Json               rapidjson::Value as the source reads it
--   Prelude            numbers, lists, bytes and maps keyed by texts
--
-- Numbers are natural numbers with the wrap of the source written out (% 2 ^ 64); a double is its bit
-- pattern, of which only the comparisons with zero and isfinite are read. A text is its list of
-- bytes. A pointer into a pool is the index of its cell. The template arguments (1024 pending
-- orders, 2048 processed ones, 8192 messages) are parameters, with the source's values in `limits`.
-- The payload of a message is the text that rapidjson's writer prints, cut to the 2047 bytes that its
-- FixedString<2048> keeps; the writer is a parameter, and the documents it is given are modelled.
-- Each loop is recursion on the list it runs over, so no fuel is needed.
--
-- Parameters, since their code is elsewhere: what an adapter answers or throws, the readings of the
-- clock, the printing of numbers and std::stod, rapidjson's parser and writer, the answers of the
-- sockets, the arithmetic of doubles, the resolver of assets, the signer, the random ids, and the
-- batch thread of the Hyperliquid adapter.
--
-- The Hyperliquid adapter hands its updates and fills to the callbacks of the engine; the model keeps
-- them in lists. A second lock of a std::mutex by the thread that holds it is the result `deadlock`.
--
-- Not modelled: sockets, threads but for the ring and the nonces, logging, the configuration at
-- startup, list_open_orders of the Hyperliquid adapter, its batch thread and the monitor of its
-- connection, the other venues' clients, market data. Two branches of place_order of that adapter
-- that are never reached are left out: that for "stop" behind the one for triggers, and the cap on
-- the price of a batched "Ioc" order. The compare-exchange loops of the pool and the counters are
-- those of a thread that nobody disturbs. Texts that come from a venue are taken to hold no NUL.
pub mod Prelude
pub mod Hft
pub mod Nonce
pub mod Dispatch
pub mod Symbol
pub mod Reasons
pub mod NumString
pub mod Rolling
pub mod Json
pub mod Engine
pub mod Hyperliquid
