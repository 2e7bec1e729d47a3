-- ===== src/Gsm/Start/Blank.antt =====
-- The loop of `gsm_set_switchtype` in GSM_STATE_SET_ECHO: the empty line of a message in text mode,
-- which `module_receive` takes as the last one, is read again and again.
use chan_extra.Prelude.{ℕ, zero, suc, ◌≡◌, refl, true, false, List, []}
use chan_extra.Config.Commands.{AtId, at_ok, at_set_cmee, at_set_echo_mode, codes}
use chan_extra.Gsm.Text.{gsm_compare}
use chan_extra.Gsm.San.{arrays_fit, cr_of, gsm_san, out_text, san_add, san_rest, skip_of}
use chan_extra.Gsm.State.{ModuleState, gsm_state_set_echo, gsm_state_set_report_error}
use chan_extra.Gsm.Module.{Env, Gsm, at}
use chan_extra.Gsm.Start.{on_ok, says, spinning, start_line, start_loop}

-- A module that waits for the answer to its second last command, with a text in `sanbuf`.
abbrev pub waiting : Gsm → List ℕ → Gsm
waiting g text = record g { state = gsm_state_set_echo; san = record { text = text; idx = 0 } }

on_ok-silent :
    (env : Env) (g : Gsm) (buf : List ℕ) (asked : AtId) (next : ModuleState) (id : AtId)
    → says env g buf at_ok ≡ false
    → on_ok env g buf asked next id ≡ g
unfolding on_ok
on_ok-silent env g buf asked next id no_ok = rw (on_ok, no_ok) refl

-- In GSM_STATE_SET_ECHO, however many rounds the loop is given, it is not over, when two ends of
-- line are left of what was received with the head of a message in text mode, and an empty line does
-- not tell success.
pub start_loop-blank :
    (env : Env) (f : ℕ) (g : Gsm) (text : List ℕ)
    → gsm_compare g.at_last_recv (codes "+CMT: \"") ≡ true
    → says env (waiting g text) [] at_ok ≡ false
    → start_loop env f (waiting g text) (codes "\r\n\r\n") ≡ spinning
unfolding at says start_loop arrays_fit out_text gsm_san san_add skip_of cr_of san_rest start_line
start_loop-blank env zero g text head no_ok = refl
start_loop-blank env (suc f) g text head no_ok =
    let again = start_loop-blank env f g (codes "\r\n\r\n") head no_ok in
    let read : Gsm = record g {
      state = gsm_state_set_echo;
      san = record { text = codes "\r\n\r\n"; idx = 4 };
    } in
    let silent =
      on_ok-silent env read [] at_set_echo_mode gsm_state_set_report_error at_set_cmee no_ok in
    rw (start_loop, head, head, head, silent, again) refl
