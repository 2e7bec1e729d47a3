-- ===== src/Config/Tests.antt =====
-- Runs of the configuration at concrete inputs.
use chan_extra.Prelude.{◌≡◌, ◌≢◌, refl, [], ◌∷◌, none, some, inr, set, replicate, bind, arith}
use chan_extra.Config.Commands.{codes, at_clip_enabled, at_check, index, at_cmds_sum}
use chan_extra.Config.Template.{expand, expanded, get_dial_str, text_eq}
use chan_extra.Config.Template.Laws.{expand_lem}
use chan_extra.Config.File.{
  trim, scan_line, parse_line, init_cfg, get_at, get_at_cmds_id, value, null, undefined,
  gsm_set_module_id, gsm_get_module_name, init_cfg_file,
}
use chan_extra.Config.File.Laws.{get_at-parse_line, get_at-null, setting}

dial : get_dial_str (codes "ATD$D_NUMBER;") (codes "10086") 128 ≡ expanded (codes "ATD10086;")
unfolding get_dial_str
dial = refl

file :
    init_cfg_file (codes "MODULE => SIM900 # a name\nAT_CLIP_ENABLED =>AT+CLIP=0 \n" ∷ [])
    ≡ some (
        record {
          module_name = codes "SIM900";
          at_cmds =
              set (replicate at_cmds_sum none) (index at_clip_enabled) (some (codes "AT+CLIP=0"));
        }
        ∷ [])
unfolding init_cfg_file parse_line trim get_at_cmds_id index text_eq scan_line
file = refl

expand_lem_example :
    expand (codes "AT+VTS=$DTMF") (codes "$DTMF") (codes "%c") (codes "5") 128
    ≡ expanded (codes "AT+VTS=5")
expand_lem_example =
    expand_lem (codes "DTMF") (codes "AT+VTS=") [] (codes "5") b'c' 128 (ground arith)
      (ground arith) tt (inr (inr refl)) (ground arith)

get_at-null_example : get_at (init_cfg ∷ []) (some 0) 7 ≢ null
get_at-null_example = get_at-null (init_cfg ∷ []) (some 0) 7 (ground arith)

get_at-parse_line_example :
    bind
      (parse_line init_cfg (setting (codes "AT_CHECK") (codes "AT+A=1")))
      (λ cfg. some (get_at (set (init_cfg ∷ []) 0 cfg) (some 0) (index at_check)))
    ≡ some (value (codes "AT+A=1"))
unfolding index init_cfg get_at_cmds_id trim text_eq
get_at-parse_line_example =
    get_at-parse_line init_cfg (codes "AT_CHECK") (codes "AT+A=1") at_check (init_cfg ∷ []) 0
      (ground arith) (ground arith) refl refl (ground arith) (ground arith) refl refl (ground arith)
      (ground arith)

-- A negative number of a module, and one past the end of the table, which is let through.
past_the_end :
    (gsm_get_module_name (init_cfg ∷ []) none ≡ value (codes "Unknow module"))
    × (gsm_get_module_name (init_cfg ∷ []) (some 1) ≡ undefined)
unfolding gsm_get_module_name
past_the_end = (refl, refl)

last_of_the_name :
    gsm_set_module_id (record init_cfg { module_name = codes "A" } ∷ []) none (codes "A") ≡ some 0
unfolding gsm_set_module_id text_eq
last_of_the_name = refl
