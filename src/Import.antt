-- ===== src/Import.antt =====
-- packages/domain/services/payment_import_service.py: the rows of a payment file become order
-- groups. Time zones and the parsing of times are a `Calendar`; the rows of the file are an argument.
pub mod Parse
pub mod Groups
mod Tests
