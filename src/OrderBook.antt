-- ===== src/OrderBook.antt =====
-- include/feedhandler/order_book.hpp and src/order_book.cpp.
pub mod Types
pub mod Pool
pub mod Links
pub mod Price
pub mod Best
pub mod Top
pub mod TopWrite
pub mod Orders
pub mod Levels
pub mod Heap
pub mod Spec
pub mod View
mod Tests
