-- ===== src/Sms.antt =====
-- Short messages: libgsmat/gsm_sms.c.
pub mod Hex
pub mod Number
pub mod Septet
pub mod Deliver
pub mod Charset
pub mod Submit
pub mod Cstring
pub mod Event
pub mod TextMode
mod Tests
