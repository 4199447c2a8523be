-- ===== src/Lib.antt =====
-- lob: a single-symbol limit order book with price-time priority.
--
-- The program. An `OrderBook` (include/lob/order_book.hpp) keeps for each side an array of price
-- levels (include/lob/price_level.hpp), each with a queue of orders that are linked through their
-- own fields (include/lob/intrusive_list.hpp, include/lob/order.hpp), and a bitmap of the occupied
-- levels (include/lob/bitmap.hpp) with which it finds the next best price. The orders live in slots
-- of a slab (include/lob/slab_allocator.hpp), and a hash table finds an order by its id
-- (include/lob/order_id_map.hpp). `submit` matches an order against the other side and rests what is
-- left; `cancel`, `reduce` and `modify` change a resting order. The parser of ITCH messages
-- (include/lob/itch.hpp, src/itch_parser.cpp) feeds a handler that replays them into the book.
--
-- The files. Types: include/lob/types.hpp. Orders: the order and the storage; Orders/Slab: the
-- allocator; Orders/Fifo: the intrusive list. Bitmap: the bitmap. IdMap: the hash table. Book/State:
-- the book and its queries; Book/Rest: `insert_resting_`, `remove_from_book_`, `cancel` and `reduce`;
-- Book/Match: `would_cross`, `can_fully_fill` and `match_`; Book/Submit: `submit` and `modify`;
-- Book/Best: the bitmaps and the best indices against the levels; Book/Stock: the queues of orders
-- against the levels, the storage, the free list and the table of ids; Book/Fill: price-time priority as
-- a relation on queues, and the matching loop against it. Itch: the readers, the dispatch and
-- the loop of the parser. Ring: the ring between two threads (include/lob/spsc_ring.hpp), its
-- operations whole; Ring/Threads: the two threads as a step relation. Histogram: the latencies
-- (include/lob/histogram.hpp). Replay: the program that replays messages into a book (src/replay.cpp);
-- Replay/CommandLine: its arguments; Replay/Days and Replay/Whole: sequences of messages, and the run from
-- the bytes of a file on. Book/Live: the operations of a book by the ids of its orders, which
-- the replay rests on, and `submit` of orders that rest and of fill-or-kill orders; Itch/Wire: the messages as bytes. The files below these folders are proofs about the file that names them. Base
-- has shared helpers: Bits and Word for machine words, Int for integers, Sums for sums, Steps for
-- operations that may not return. Tests has runs on small inputs. A definition has the name of the
-- function that it models; a part of a function has a name of its own and a comment that quotes the
-- code.
--
-- Words used below. A book is shelved when each bitmap marks exactly the occupied levels of its side and
-- each best index is that of the best of them. A table of ids is ordered when no id stands in two slots,
-- each entry is at most one slot further from its ideal slot than the entry before it, and an entry
-- behind an empty slot is in its ideal slot. A book is stocked with a queue of slots for each level when
-- each level links its queue both ways, counts it and has its total modulo 2 ^ 32, the queued orders
-- carry their side and level and a positive quantity, the free slots, none of them queued,
-- are linked in the free list, and the table is ordered, has an empty slot and
-- holds exactly the ids of the queued orders, each with its slot. A clash is three neighbouring entries of which the first
-- and the second are in their ideal slots, and the third has the ideal slot of the first.
-- A side is swept when fills are made from its best level on, within the limit and as long as there is a
-- quantity, each level from its oldest order on. A report is a message that adds or replaces no order of the target's book
-- and names an id other than 0. The handler is tallied when each histogram's total is that of the counters of
-- the calls that it times. A message can be taken if it is a report, or adds an order that does not
-- cross, with a positive quantity, a price in range, also as a 32-bit level index, and a new id other than 0, and
-- there are a tick other than 0, a free slot and room in the table. A book has room for an id when its entry fits the first empty slot
-- from its ideal one and another slot is empty.
--
-- The model. An array is a function from indices. A pointer to an order is an optional index of a
-- slab slot, with `none` for null; `kNoBest` and `kNotFound` are `none` too. A slab slot that is free
-- keeps its link in the leading bytes of the order, which are its field `prev`. Words, quantities and
-- counts are natural numbers, and the wrap of their arithmetic is written out. A price is an
-- integer; the difference of two prices does not overflow in the model, and its casts to 32 and to 64
-- bits wrap. What a trade sink is called with is returned as a list, the first call first.
--
-- Loops. A loop without a bound in the code runs on fuel: the capacity of the table for the hash
-- table's loops, two more than the number of levels for a walk over a side, and two more than the
-- capacity of the slab for the fills at one level; one more than the number of bytes for the parser;
-- 65 tests for the powers of two, after which the loop has ended or never does.
-- `none` as the result of an operation means that the fuel ran out or that an assertion failed (`insert` of the id 0, an exhausted slab), or, in the replay, that the code divides by a tick of 0. The loops of
-- the bitmap, of the slab's constructor and of the histogram need no more rounds than they are given.
--
-- Parameters. The clock of the replay (include/lob/clock.hpp) is a function from the number of its readings
-- so far, and `atoi` and `atoll` are functions from strings. The mapped file is a function from
-- positions to bytes, and its length. The characters of an argument are single bytes.
--
-- Not modelled: what the replay prints and the files that it writes, but for the rows of the snapshot, the
-- clock and the mapping of the file (include/lob/clock.hpp, include/lob/mapped_file.hpp), the mean and the summary of the histogram, `IntrusiveList::clear`, which nothing calls, and the release of memory.
pub mod Base
pub mod Types
pub mod Orders
pub mod Bitmap
pub mod IdMap
pub mod Book
pub mod Itch
pub mod Ring
pub mod Histogram
pub mod Replay
mod Tests
