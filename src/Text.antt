-- ===== src/Text.antt =====
-- What the sources use of `std::string` and of the C library's number conversions.
pub mod Find
pub mod Decimal
