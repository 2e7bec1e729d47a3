-- ===== src/Gsm.antt =====
-- The modules' side of src/libgsmat: the text that comes from a module, the calls and the state
-- machine of src/libgsmat/gsm.c and src/libgsmat/gsm_module.c, built with VIRTUAL_TTY and
-- CONFIG_CHECK_PHONE and without AUTO_SIM_CHECK. Messages to the log are left out.
pub mod Text
pub mod San
pub mod State
pub mod Call
pub mod Module
pub mod Start
pub mod Network
pub mod Dial
pub mod Ussd
pub mod Sms
pub mod Init
pub mod Talk
pub mod Receive
pub mod Reset
pub mod Queue
mod Tests
