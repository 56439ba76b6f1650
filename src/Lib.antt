-- ===== src/Lib.antt =====
-- espacekilly, an exchange: requests to place and cancel orders are matched against order books
-- that live in preallocated memory, and responses go to a queue. A generator and a UDP broadcaster
-- make streams of requests; a UDP client decodes them.
--
-- Parts and files:
--   Base: names of the libraries, Boolean tests, lists, signed numbers.
--   Types: the messages of src/matcher/include/matcher/matcher.h.
--   Wire: udp_common/udp_wire.h. Wire.Bytes is `put` and `get` on a buffer and a pointer into it;
--     the byte order of the host is an argument. Wire.Message is encodeBody, decodeBody,
--     encodeDatagram, encodeSentinel and decodeDatagram; Wire.Format is the layout that the protocol
--     rule at the head of the file asks for. Wire.Datagram is about what is encoded, Wire.Decoding
--     about datagrams of many messages, Wire.Short about those that are cut short.
--   Matcher: src/matcher/src/matcher.cpp. Matcher.Memory holds the fields of the nodes by
--     address; Matcher.IntrusiveList is the namespace of that name; Matcher.OrdersData is the pool
--     with its free lists and the constructor's loops; Matcher.OrderBook is the class OrderBook;
--     Matcher.Handlers is HandleMarketOrder, HandleLimitOrder and HandleCancellation, one function
--     for each part of their bodies. The children of these modules hold the proofs: the invariant
--     of the book is Matcher.OrderBook.Invariant, that of the index
--     Matcher.OrderBook.Index, with Matcher.OrderBook.Findable.
--     Matcher.Engine is matchAllOrders, which calls the handlers one request after the other; the
--     queue is a parameter, and so are the cycles that each request takes. Matcher.Ladder is the
--     ladder that startMatch prints, and Matcher.Report the counters, percentiles and slices that
--     it prints and plots, with sorting and the floating point products as arguments.
--     Matcher.Arena is the memory of a book: roundUp, the sizes in matcher.h, and where the arrays
--     of OrderBook come to lie; the arena is an argument.
--     Matcher.Priority is what the book promises, with no nodes and no levels: one queue for each
--     side, best price first and oldest first, matching from its front, and orders that come to
--     rest behind those with their price or a better one. Matcher.Priority.Exchange serves all
--     requests on two such queues. Matcher.OrderBook.View reads the queues off a book, and its
--     children follow them through the changes that the handlers make; Matcher.Engine.Exchange
--     compares the loop with the reference.
--   Generator: market_generator/main.cpp, the requests that it writes for the draws of its
--     distributions; live orders are listed from the back of the vector. Generator.Statistics is
--     what main counts while it writes them.
--   Broadcaster: GenerateOrders of udp_broadcaster/main.cpp. Broadcaster.Send is the sending loop
--     of its main, with the clock and the results of sendto as arguments.
--   Client: udp_client/main.cpp, OnRequest and the receiving loop, on a list of what arrives.
--   Plots: src/matcher/src/plots/plots.cpp, the loops that put durations into buckets, bins and
--     groups; DurationNs, which is floating point arithmetic, is an argument. Plots.Ticks is the
--     ticks of the axes and Plots.Canvas the frame with the grid that WriteSvg draws of them, with
--     the arithmetic of `double`, Plots.Double, as an argument.
--   Tests: runs at small inputs, and the theorems at inputs that meet their hypotheses.
--
-- Choices. A pointer is a number, 0 for null; the sentinels and the nodes of the pool have
-- addresses of their own. `size_t` values are numbers with the wrap written out; quantities are
-- signed numbers without a bound. `none` stands for undefined behaviour: a null pointer that is
-- followed, an index outside an array, a free list that has run out. The loop of
-- HandleMarketOrder runs on fuel of one round for each node of the pool and each level, and three
-- more: each round but the last removes an order that rests, leaves a level or fills the order.
-- The second loop of GenerateOrders has two rounds for each order, one for it and one for its
-- cancellation. Log2Ticks has two more than its highest octave; the other loops of the axes, over
-- `double`, are given their fuel and have no theorem.
--
-- Not modelled: main.cpp, the text and the files of startMatch, the performance counters, the bars,
-- curves and texts of the plots, the memory mappings and the setting up of sockets, which are
-- system calls and output; the vendored queue of src/matcher/include/matcher/dro.
pub mod Base
pub mod Types
pub mod Wire
pub mod Matcher
pub mod Generator
pub mod Broadcaster
pub mod Client
pub mod Plots
mod Tests
