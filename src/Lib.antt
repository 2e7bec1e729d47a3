-- ===== src/Lib.antt =====
-- chan_extra: an Asterisk channel driver for GSM cards. The repository holds the kernel driver of
-- the cards (src/opvxg4xx), a library that drives the GSM modules by AT commands (src/libgsmat)
-- and the channel driver of Asterisk (src/chan_extra). The driver multiplexes the serial line of
-- a module into channels; the library sends commands over one of them, schedules what is to be
-- done later, and reads and writes short messages in the PDU format.
--
-- Sms: short messages, src/libgsmat/gsm_sms.c. A text is the list of its characters without the
--   NUL; a text of an array is read as zeros past its end. Sms.Hex and Sms.Number are the digits
--   of octets and numbers, Sms.Septet the packing of 7-bit characters (gsmEncode7bit,
--   gsm_to8Bit), Sms.Deliver gsm_decode_pdu and its field readers, Sms.Charset the character
--   sets, Sms.Submit gsm_encode_pdu, gsm_encode_pdu_ucs2, gsm_forward_pdu and
--   pdu_get_send_number, Sms.Event gsm_pdu2sm_event, Sms.TextMode gsm_text2sm_event2. Sms.Cstring
--   is what the code uses of the C library on text. An out-of-bounds access is a value: `none`,
--   `undefined` or `fault`. The loop of gsm_to8Bit takes fuel, twice the number of octets, which
--   is enough since two rounds consume an octet. iconv is a parameter.
-- Sched: the scheduler, src/libgsmat/gsmsched.c. The table is a list of slots, of any length; the
--   time is an argument and so is what a callback does to the state.
-- Mux: the multiplexer, the code under VIRTUAL_TTY of src/opvxg4xx/base.c with the macros of
--   src/opvxg4xx/opvxg4xx.h. Mux.Fcs is the check, Mux.Ring the receiver's ring buffer with
--   indexes for the pointers, Mux.Receive gsm0710_buffer_get_frame, Mux.Send gsm0710_write_frame
--   and gsm0710_setup_step, Mux.Channel gsm0710_handle_command and gsm0710_extract_frames. The
--   loops over the buffer take as many rounds as it holds octets, each round of which takes one
--   at least out of the buffer. There is memory for every allocation, and there is one thread:
--   the locks are left out.
--
-- Config: the commands of the modules, src/libgsmat/gsm_config.c and gsm_config.h, without
--   AUTO_SIM_CHECK. Config.Commands is `enum AT_CMDS` and the table `at_cmds`, Config.Template
--   str_check_symbol, str_replace and the get_*_str built on them, Config.File parse_file, get_at
--   and the names of the modules. A pointer is a text, or NULL, or undefined. The loop of
--   str_replace takes as many rounds as the text has octets and one.
-- Gsm: a module and what it says, src/libgsmat/gsm.c, gsm_module.c and libgsmat.h, built with
--   VIRTUAL_TTY and CONFIG_CHECK_PHONE and without AUTO_SIM_CHECK. Gsm.State has the states and
--   the events, Gsm.Text the helpers on text, Gsm.San gsm_san, Gsm.Call the list of calls,
--   Gsm.Module `struct gsm_modul` and the functions that write a command. A line that comes in
--   goes through Gsm.Receive: gsm_check_event hands it to Gsm.Start (gsm_set_switchtype) or to
--   module_receive, which asks Gsm.Init and Gsm.Talk, the two halves of its switch, and then
--   Gsm.Sms, Gsm.Network and Gsm.Ussd (module_check_sms, module_check_network,
--   module_check_ussd). Gsm.Dial is gsm_answer, gsm_setup and gsm_hangup, Gsm.Reset gsm_restart
--   and gsm_reset, and Gsm.Queue the messages that wait for a module, in the table of Sched.
--   Config gives the commands and Sms reads the messages. What is outside of the library comes in
--   with the record Env: which writes succeed, the time, sscanf, iconv. A call is its reference
--   and every write appends to `sent`. The loops take as many rounds as there are octets to read
--   and one; `spinning` is the return without a round left and `crashed` one that is undefined. A
--   text that does not fit the arrays of 1024 octets of the two loops is undefined as well.
--   Gsm.Receive.Converse is what comes in over a time, one text after the other.
-- Card: a span of a card, the rest of src/opvxg4xx/base.c and src/opvxg4xx/opvxg4xx.h. Card.Port
--   is what `struct g4_card` keeps of the span, on top of the state of Mux; what waits in the
--   receiver of the serial line and the count of its transmitter are arguments. Card.Serial is
--   g4_dchan_rx, g4_dchan_tx, g4_hdlc_rx and g4_hdlc_tx and, as `tasklet`, what g4_run and
--   irq_tasklet_handler do for the span in an interrupt: it writes frames by Mux.Send and has
--   Mux.Channel read those that come in. Card.Tty is the terminal of the span (ttygsm_open,
--   ttygsm_close, ttygsm_write); its tty_struct is one for all that open it; Card.Find finds its
--   card. Card.Ioctl is g4_ioctl, Card.Power the power keys of the modules and Card.Codec the
--   values of the codec. `none` is a write past the end of a buffer. The loops over what is sent
--   take as many rounds as it has octets, each of which takes one at least. One interrupt, or one
--   call, runs at a time: the locks and the sleeps are left out.
-- Interface: the interfaces of the channel driver, src/chan_extra/src/chan_extra.c, with
--   HAVE_GSMAT. An interface (struct extra_pvt) is its reference and a field of it a function of
--   the reference. Interface.Links is the list with its pointers prev and next, iflist and ifend
--   (extra_iflist_insert, extra_iflist_extract), Interface.Destroy the end of an interface and of
--   all, and Interface.Request how a call finds one (determine_starting_point from the token on,
--   is_group_or_channel_match, available, duplicate_pseudo, extra_request). Interface.Chain has
--   the list that the pointers stand for, Interface.Sorted its order, Interface.Route the order
--   in which the search comes to its members. What extra_new makes and the memory and the device
--   for a copy come in with a record Env. The loops take as many rounds as there are interfaces,
--   since they come to each of them once; the wait for pending restarts before all are destroyed, which has
--   no bound, takes as many looks as it is given, and the answers to them from outside.
--
-- Not modelled: the messages of the debug modes and the names of constants, which are output
-- only; gsm_text2sm_event, the older version of gsm_text2sm_event2, which is not called; the
-- creation and the freeing of modules and the table of timers; which configuration files there
-- are; of the driver the set-up of the registers, I2C, the audio and the registration with the
-- kernel; of the channel driver all that is glue over Asterisk, DAHDI and libgsmat, which is most
-- of it, and the reading of the text of a request.
pub mod Prelude
pub mod Sms
pub mod Sched
pub mod Mux
pub mod Config
pub mod Gsm
pub mod Card
pub mod Interface
