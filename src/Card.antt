-- ===== src/Card.antt =====
-- A span of a card: what the driver does with its serial line, its terminal, its power and its
-- settings, of src/opvxg4xx/base.c, built with VIRTUAL_TTY.
pub mod Port
pub mod Serial
pub mod Tty
pub mod Power
pub mod Codec
pub mod Find
pub mod Ioctl
mod Tests
