-- ===== src/Mux.antt =====
-- The multiplexer of 3GPP TS 27.010 in the driver: the code under VIRTUAL_TTY of
-- src/opvxg4xx/base.c, with the types and the macros of src/opvxg4xx/opvxg4xx.h.
pub mod Fcs
pub mod Ring
pub mod Receive
pub mod Send
pub mod Channel
mod Tests
