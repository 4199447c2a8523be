-- ===== src/Book.antt =====
-- `OrderBook` of include/lob/order_book.hpp: the state and its queries. An array of levels is a
-- function from indices, and `kNoBest` is `none`. A run that fails an assertion, or whose loop is
-- still running after as many rounds as its bound allows, is `none`.
pub mod State
pub mod Rest
pub mod Match
pub mod Submit
pub mod Best
pub mod Stock
pub mod Fill
pub mod Live
