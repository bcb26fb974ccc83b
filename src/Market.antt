-- ===== src/Market.antt =====
-- Rules of the market beside the book: auctions, price bands and contingent orders.
pub mod Auction
pub mod Contingent
pub mod Luld
