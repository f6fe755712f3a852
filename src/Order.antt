-- ===== src/Order.antt =====
-- The order-integrity reference (src/order_integrity): a trusted catalog, client carts, quotes,
-- the confirmation ledger and the verifier. Definitions stand in Catalog, Cart, Quote, Ledger and
-- Verify, proofs in the modules below them.
pub mod Catalog
pub mod Cart
pub mod Quote
pub mod Ledger
pub mod Verify
mod Tests
