-- ===== src/Board.antt =====
-- src/domains/board.c and inc/domains/board.h: the messages of the Board domain.
pub mod Validate
pub mod ValidateMore
pub mod Codec
pub mod WellFormed
pub mod Decides
pub mod Conforms
pub mod Laws
pub mod Exchange
pub mod EndToEnd
mod Tests
