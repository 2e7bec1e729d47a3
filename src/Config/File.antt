-- ===== src/Config/File.antt =====
-- The files of the modules: `trim`, `parse_file`, `get_at` and the module names of
-- src/libgsmat/gsm_config.c. Which files the directory has is the system's: they come in as texts.
pub mod Laws
use chan_extra.Prelude.{
  ℕ, zero, suc, ◌+◌, ◌-◌, Bool, true, false, not, ◌&&◌, ◌||◌, Option, none, some, List, [], ◌∷◌,
  ◌++◌, ltb, leb, ◌==◌, if◌then◌else◌, length, get_elem?, set, take, drop, replicate, bind,
}
use chan_extra.Config.Commands.{codes, AtId, index, AtCmd, at_cmds, at_cmds_sum}
use chan_extra.Config.Template.{text_eq}

unfoldable pub is_blank : ℕ → Bool
is_blank c = c == b' ' || c == b'\t'

-- The loop of `trim` over the rest of the text: what is copied from here on and kept, and whether
-- that has anything but blanks. `tail` tells whether something has been copied.
unfoldable pub trim_loop : Bool → List ℕ → List ℕ
unfolding is_blank
trim_loop tail [] = []
trim_loop tail (c ∷ str) =
    let behind = trim_loop true str in
    let leading = trim_loop false str in
    if not (is_blank c)
    then c ∷ behind
    else if tail
    then (if length behind == 0 then [] else c ∷ behind)
    else leading

unfoldable pub trim : List ℕ → List ℕ
unfolding trim_loop
trim str = trim_loop false str

-- The scan of a line from `i`: where it ends and the last `=>` before, as the index of its `>`.
-- `j` is the index of the last `=`.
unfoldable pub scan_line : List ℕ → ℕ → Option ℕ → Option ℕ → ℕ × Option ℕ
scan_line [] i j split = (i, split)
scan_line (c ∷ buf) i j split =
    let equals = scan_line buf (i + 1) (some i) split in
    let angle =
      scan_line buf (i + 1) j
        (elim j [ none ↦ split | some k ↦ if k + 1 == i then some i else split ]) in
    let other = scan_line buf (i + 1) j split in
    if c == b'#' || (c == b'\r' || c == b'\n')
    then (i, split)
    else if c == b'='
    then equals
    else if c == b'>'
    then angle
    else other

unfoldable pub id_loop : List AtCmd → List ℕ → Option AtId
unfolding text_eq
id_loop [] name = none
id_loop (cmd ∷ cmds) name = if text_eq name cmd.name then some cmd.id else id_loop cmds name

-- `none` is -1.
unfoldable pub get_at_cmds_id : List ℕ → Option AtId
unfolding id_loop at_cmds
get_at_cmds_id name = id_loop at_cmds name

-- `struct cfg_info`, less the path: `none` is a NULL in its table.
pub record CfgInfo : Type 0 where
  pub module_name : List ℕ
  pub at_cmds : List (Option (List ℕ))

-- `init_cfg`.
unfoldable pub init_cfg : CfgInfo
init_cfg = record { module_name = []; at_cmds = replicate at_cmds_sum none }

-- One line of a file. `none` is a write past the end of `name` or `value`, of 512 octets, or of
-- the module's name, of 256.
unfoldable pub parse_line : CfgInfo → List ℕ → Option CfgInfo
parse_line cfg buf =
    let (i, split) = scan_line buf 0 none none in
    elim split [
      | none ↦ some cfg
      | some s ↦
          let name = trim (take (s - 1) buf) in
          let value = trim (take (i - s - 1) (drop (s + 1) buf)) in
          let room = ltb (i - s - 1) 512 in
          if not (ltb (s - 1) 512) then none else elim (get_at_cmds_id name) [
            | some id ↦
                if room
                then some (record cfg { at_cmds = set cfg.at_cmds (index id) (some value) })
                else none
            | none ↦
                if not (text_eq name (codes "MODULE"))
                then some cfg
                else if room && ltb (length value) 256
                then some (record cfg { module_name = value })
                else none
          ]
    ]

-- The lines that `fgets` reads into `buf`, of 1024 octets. `line` is the line at hand and
-- `room` what it may still take.
unfoldable pub fgets_loop : ℕ → List ℕ → List ℕ → List (List ℕ)
fgets_loop room line [] = if length line == 0 then [] else line ∷ []
fgets_loop room line (c ∷ text) =
    let ended = (line ++ (c ∷ [])) ∷ fgets_loop 1023 [] text in
    let rest = fgets_loop (room - 1) (line ++ (c ∷ [])) text in
    if c == b'\n' || leb room 1 then ended else rest

unfoldable pub parse_lines : CfgInfo → List (List ℕ) → Option CfgInfo
unfolding parse_line
parse_lines cfg [] = some cfg
parse_lines cfg (buf ∷ bufs) = bind (parse_line cfg buf) (λ cfg'. parse_lines cfg' bufs)

-- A file without NUL.
unfoldable pub parse_file : CfgInfo → List ℕ → Option CfgInfo
unfolding fgets_loop parse_lines
parse_file cfg text = parse_lines cfg (fgets_loop 1023 [] text)

unfoldable pub defvalue_loop : List AtCmd → ℕ → Option (List ℕ)
unfolding index
defvalue_loop [] id = none
defvalue_loop (cmd ∷ cmds) id = if id == index cmd.id then some cmd.value else defvalue_loop cmds id

-- `none` is NULL.
unfoldable pub get_defvalue : ℕ → Option (List ℕ)
unfolding defvalue_loop at_cmds
get_defvalue id = if leb at_cmds_sum id then none else defvalue_loop at_cmds id

-- `undefined` is a read past the end of the table of the files.
pub data Value : Type 0 where
  null undefined : Value
  value : List ℕ → Value

unfoldable pub default_value : ℕ → Value
unfolding get_defvalue
default_value id = elim (get_defvalue id) [ none ↦ null | some text ↦ value text ]

-- The files in memory, `[]` for a NULL `cfg_head`. `none` is a negative number of a module. The
-- number of a command is not negative.
unfoldable pub get_at : List CfgInfo → Option ℕ → ℕ → Value
get_at cfgs module_id id = if leb at_cmds_sum id then null else elim module_id [
  | none ↦ default_value id
  | some m ↦
      if ltb (length cfgs) m || length cfgs == 0
      then default_value id
      else elim (get_elem? cfgs m) [
        | none ↦ undefined
        | some cfg ↦ elim (get_elem? cfg.at_cmds id) [
          | none ↦ undefined
          | some slot ↦ elim slot [ none ↦ default_value id | some text ↦ value text ]
        ]
      ]
]

-- The loop from number `i`: the last file of the name gives the number.
unfoldable pub module_loop : List CfgInfo → ℕ → Option ℕ → List ℕ → Option ℕ
unfolding text_eq
module_loop [] i module_id name = module_id
module_loop (cfg ∷ cfgs) i module_id name =
    module_loop cfgs (i + 1) (if text_eq cfg.module_name name then some i else module_id) name

unfoldable pub gsm_set_module_id : List CfgInfo → Option ℕ → List ℕ → Option ℕ
unfolding module_loop
gsm_set_module_id cfgs module_id name = module_loop cfgs 0 module_id name

unfoldable pub gsm_get_module_name : List CfgInfo → Option ℕ → Value
gsm_get_module_name cfgs module_id = elim module_id [
  | none ↦ value (codes "Unknow module")
  | some m ↦
      if ltb (length cfgs) m || length cfgs == 0
      then value (codes "Unknow module")
      else elim (get_elem? cfgs m) [ none ↦ undefined | some cfg ↦ value cfg.module_name ]
]

-- `init_cfg_file` on the texts of the files found, and `none` as `parse_line` has it.
unfoldable pub init_cfg_file : List (List ℕ) → Option (List CfgInfo)
unfolding init_cfg parse_file
init_cfg_file [] = some []
init_cfg_file (text ∷ texts) =
    bind (parse_file init_cfg text) (λ cfg. bind (init_cfg_file texts) (λ cfgs. some (cfg ∷ cfgs)))
