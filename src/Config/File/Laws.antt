-- ===== src/Config/File/Laws.antt =====
-- A setting in a file is what `get_at` gives, the table of defaults is one of distinct names and
-- ids, and `get_at` gives NULL for no command of it.
use chan_extra.Prelude.{
  ==_self, ℕ, zero, suc, ◌+◌, ◌-◌, ◌<◌, ◌≡◌, refl, ap, ◌≢◌, Bool, true, false, ◌||◌, Option, none,
  some, List, [], ◌∷◌, ◌++◌, ltb, leb, ◌==◌, lt→ltb, bind, length, get_elem?, get_or, set, take,
  drop, take-append, take-append_eq, drop-append_le, All, arith, all_below, all_below_sound,
}
use chan_extra.Config.Commands.{AtId, at_check, index, AtCmd, at_cmds, at_cmds_sum}
use chan_extra.Config.Template.{text_eq}
use chan_extra.Config.File.{
  trim, scan_line, get_at_cmds_id, CfgInfo, parse_line, get_defvalue, default_value, Value, null,
  undefined, value, get_at,
}

abbrev pub some_cmd : AtCmd
some_cmd = record { id = at_check; name = []; value = [] }

text_eq→eq : (a b : List ℕ) → text_eq a b ≡ true → a ≡ b
unfolding text_eq
text_eq→eq [] [] h = refl
text_eq→eq [] (d ∷ b) h = ground arith
text_eq→eq (c ∷ a) [] h = ground arith
text_eq→eq (c ∷ a) (d ∷ b) h = ground (arith, text_eq→eq a b)

unfoldable is_text : Option (List ℕ) → List ℕ → Bool
is_text none text = false
is_text (some other) text = text_eq other text

is_text→eq : (o : Option (List ℕ)) (text : List ℕ) → is_text o text ≡ true → o ≡ some text
unfolding is_text
is_text→eq none text h = ground arith
is_text→eq (some other) text h = ap some (text_eq→eq other text h)

-- Whether the entry's name leads to its value.
unfoldable entry_test : ℕ → Bool
entry_test i =
    is_text (bind (get_at_cmds_id (get_or at_cmds i some_cmd).name) (λ id. get_defvalue (index id)))
      (get_or at_cmds i some_cmd).value

entries : all_below at_cmds_sum entry_test ≡ true
unfolding all_below entry_test get_at_cmds_id get_defvalue index text_eq at_cmds is_text
entries = refl

-- Whether a command has a default.
unfoldable has_default : Value → Bool
has_default null = false
has_default undefined = false
has_default (value text) = true

unfoldable default_test : ℕ → Bool
default_test id = has_default (default_value id)

defaults : all_below at_cmds_sum default_test ≡ true
unfolding all_below default_test default_value has_default
defaults = refl

has_default-null : (v : Value) → has_default v ≡ true → v ≢ null
unfolding has_default
has_default-null v h e = ground arith

default_value-null : (id : ℕ) → id < at_cmds_sum → default_value id ≢ null
unfolding default_test
default_value-null id l =
    has_default-null (default_value id) (all_below_sound at_cmds_sum default_test id defaults l)

-- The name of an entry of the table of commands leads to the entry's id, by its number, and the id
-- to the entry's value.
get_defvalue-get_at_cmds_id :
    (i : ℕ)
    → i < at_cmds_sum
    → bind (get_at_cmds_id (get_or at_cmds i some_cmd).name) (λ id. get_defvalue (index id))
      ≡ some (get_or at_cmds i some_cmd).value
unfolding entry_test
get_defvalue-get_at_cmds_id i l =
    is_text→eq
      (bind (get_at_cmds_id (get_or at_cmds i some_cmd).name) (λ id. get_defvalue (index id)))
      (get_or at_cmds i some_cmd).value (all_below_sound at_cmds_sum entry_test i entries l)

-- `get_at` gives NULL for no command of the enumeration, whatever the files have and whichever
-- the module.
pub get_at-null :
    (cfgs : List CfgInfo) (module_id : Option ℕ) (id : ℕ)
    → id < at_cmds_sum
    → get_at cfgs module_id id ≢ null
unfolding get_at
get_at-null cfgs none id l = ground (arith, default_value-null id l)
get_at-null cfgs (some m) id l = ground (arith, default_value-null id l)

-- No octet of a setting's name, and no octet of its value.
abbrev pub IsNameOctet : ℕ → Type 0
IsNameOctet c = (c ≢ b'#') × (c ≢ b'\r') × (c ≢ b'\n') × (c ≢ b'=') × (c ≢ b'>')

abbrev pub IsValueOctet : ℕ → Type 0
IsValueOctet c = (c ≢ b'#') × (c ≢ b'\r') × (c ≢ b'\n') × (c ≢ b'>')

scan_line-name :
    (name rest : List ℕ) (i : ℕ) (j split : Option ℕ)
    → All IsNameOctet name
    → scan_line (name ++ rest) i j split ≡ scan_line rest (i + length name) j split
unfolding scan_line
scan_line-name [] rest i j split h = ground arith
scan_line-name (c ∷ name) rest i j split h =
    ground (arith, scan_line-name name rest (i + 1) j split h.1, h.0)

scan_line-value :
    (text : List ℕ) (i : ℕ) (j split : Option ℕ)
    → All IsValueOctet text
    → scan_line (text ++ (b'\n' ∷ [])) i j split ≡ (i + length text, split)
unfolding scan_line
scan_line-value [] i j split h = ground arith
scan_line-value (c ∷ text) i j split h = ground (
  arith,
  scan_line-value text (i + 1) (some i) split h.1,
  scan_line-value text (i + 1) j split h.1,
  h.0,
)

-- A line that gives a command a value.
abbrev pub setting : List ℕ → List ℕ → List ℕ
setting name text = name ++ (b'=' ∷ b'>' ∷ (text ++ (b'\n' ∷ [])))

scan_line-setting :
    (name text : List ℕ)
    → All IsNameOctet name
    → All IsValueOctet text
    → scan_line (setting name text) 0 none none
      ≡ (length name + 2 + length text, some (length name + 1))
unfolding scan_line
scan_line-setting name text h h' =
    rw
      (
        scan_line-name name (b'=' ∷ b'>' ∷ (text ++ (b'\n' ∷ []))) 0 none none h,
        ==_self (0 + length name + 1),
        scan_line-value text (0 + length name + 1 + 1) (some (0 + length name))
            (some (0 + length name + 1)) h',
      )
      (ground arith)

setting_value :
    (name text : List ℕ)
    → take
        (length name + 2 + length text - (length name + 1) - 1)
        (drop (length name + 1 + 1) (setting name text))
      ≡ text
setting_value name text =
    let skip : length name + 1 + 1 - length name ≡ 2 = ground arith in
    let kept : length name + 2 + length text - (length name + 1) - 1 ≡ length text = ground arith in
    rw
      (
        drop-append_le (length name + 1 + 1) name (b'=' ∷ b'>' ∷ (text ++ (b'\n' ∷ [])))
            (ground arith),
        skip,
        kept,
      )
      (take-append text (b'\n' ∷ []))

setting_name : (name text : List ℕ) → take (length name + 1 - 1) (setting name text) ≡ name
setting_name name text =
    take-append_eq (length name + 1 - 1) name (b'=' ∷ b'>' ∷ (text ++ (b'\n' ∷ []))) (ground arith)

-- A line `name=>text` sets the value of the command that the name stands for, and no other, when
-- neither has blanks around it nor an octet that the syntax uses, and both fit their buffers.
pub parse_line-setting :
    (cfg : CfgInfo) (name text : List ℕ) (id : AtId)
    → get_at_cmds_id name ≡ some id
    → All IsNameOctet name
    → All IsValueOctet text
    → trim name ≡ name
    → trim text ≡ text
    → length name < 512
    → length text < 512
    → parse_line cfg (setting name text)
      ≡ some (record cfg { at_cmds = set cfg.at_cmds (index id) (some text) })
unfolding parse_line
parse_line-setting cfg name text id known plain plain' trimmed trimmed' short short' =
    rw
      (
        parse_line,
        scan_line-setting name text plain plain',
        setting_name name text,
        trimmed,
        known,
        scan_line-setting name text plain plain',
        setting_value name text,
        trimmed',
        lt→ltb (length name + 1 - 1) 512 (ground arith),
        lt→ltb (length name + 2 + length text - (length name + 1) - 1) 512 (ground arith),
      )
      refl

get_elem-set_self :
    {A : Type 0} (xs : List A) (i : ℕ) (v : A) → i < length xs → get_elem? (set xs i v) i ≡ some v
get_elem-set_self [] i v l = absurd (ground arith)
get_elem-set_self (x ∷ xs) zero v l = refl
get_elem-set_self (x ∷ xs) (suc i) v l = get_elem-set_self xs i v (ground arith)

get_elem-bound :
    {A : Type 0} (xs : List A) (i : ℕ) (v : A) → get_elem? xs i ≡ some v → i < length xs
get_elem-bound [] i v e = absurd (ground arith)
get_elem-bound (x ∷ xs) zero v e = ground arith
get_elem-bound (x ∷ xs) (suc i) v e = ground (arith, get_elem-bound xs i v e)

get_at-set :
    (cfgs : List CfgInfo) (m : ℕ) (cfg : CfgInfo) (id : ℕ) (text : List ℕ)
    → id < at_cmds_sum
    → length cfg.at_cmds ≡ at_cmds_sum
    → get_elem? cfgs m ≡ some (record cfg { at_cmds = set cfg.at_cmds id (some text) })
    → get_at cfgs (some m) id ≡ value text
unfolding get_at
get_at-set cfgs m cfg id text l complete found =
    let inside =
      get_elem-bound cfgs m (record cfg { at_cmds = set cfg.at_cmds id (some text) }) found in
    let known : leb at_cmds_sum id ≡ false = ground arith in
    let some_file : (ltb (length cfgs) m || length cfgs == 0) ≡ false = ground arith in
    rw
      (get_at, known, some_file, found, get_elem-set_self cfg.at_cmds id (some text) (ground arith))
      refl

-- After a line `name=>text` of a module's file `get_at` gives the text for the command that the
-- name stands for, when neither has blanks around it nor an octet that the syntax uses, both are
-- shorter than 512 octets, and the module's table has a slot for each command.
pub get_at-parse_line :
    (cfg : CfgInfo) (name text : List ℕ) (id : AtId) (cfgs : List CfgInfo) (m : ℕ)
    → m < length cfgs
    → index id < at_cmds_sum
    → length cfg.at_cmds ≡ at_cmds_sum
    → get_at_cmds_id name ≡ some id
    → All IsNameOctet name
    → All IsValueOctet text
    → trim name ≡ name
    → trim text ≡ text
    → length name < 512
    → length text < 512
    → bind
        (parse_line cfg (setting name text))
        (λ cfg'. some (get_at (set cfgs m cfg') (some m) (index id)))
      ≡ some (value text)
get_at-parse_line cfg name text id cfgs m inside l complete known plain plain' trimmed trimmed'
      short short' =
    let cfg' : CfgInfo = record cfg { at_cmds = set cfg.at_cmds (index id) (some text) } in
    let found = get_elem-set_self cfgs m cfg' inside in
    rw
      (
        parse_line-setting cfg name text id known plain plain' trimmed trimmed' short short',
        get_at-set (set cfgs m cfg') m cfg (index id) text l complete found,
      )
      refl
