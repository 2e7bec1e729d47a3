-- ===== src/Interface/Request.antt =====
-- How an interface is found for a call: `determine_starting_point` from the token of the group or
-- the channel on, `is_group_or_channel_match`, `available` and `extra_request` of
-- src/chan_extra/src/chan_extra.c.
use chan_extra.Prelude.{
  ℕ, zero, suc, ℤ, negsuc, equal, ◌^◌, Bool, true, false, not, ◌&&◌, ◌||◌, Option, none, some,
  bit_and, bind, leb, ◌==◌, if◌then◌else◌,
}
use chan_extra.Interface.Links.{Links, or_else, write, extra_iflist_insert}

-- What `struct extra_pvt` keeps of an interface besides its links. `owner`, `gsm` and `gsmcall` tell
-- whether those pointers are set, `dchan_up` whether DCHAN_UP is among `gsm->dchanavail`.
pub record Pvt : Type 0 where
  pub group : ℕ
  pub inalarm : Bool
  pub owner : Bool
  pub gsm : Bool
  pub resetting : Bool
  pub gsmcall : Bool
  pub dchan_up : Bool
  pub outgoing : Bool
  pub confirmanswer : Bool
  pub distinctivering : ℕ

-- `round_robin` has 32 entries. `wide_shift` is what the machine makes of a shift of 1 by as many
-- places, which C leaves undefined from 64 on.
pub record Driver : Type 0 where
  pub links : Links
  pub pvt : ℕ → Pvt
  pub round_robin : ℕ → Option ℕ
  pub wide_shift : ℕ → ℕ

-- The token g, G, r or R with a group, or a channel.
pub data Token : Type 0 where
  group_forward group_backward round_forward round_backward : ℕ → Token
  channel : ℤ → Token

-- `rr` is `rr_starting_point` where `roundrobin` is set.
pub record StartingPoint : Type 0 where
  pub groupmatch : ℕ
  pub channelmatch : ℤ
  pub rr : Option ℕ
  pub opt : ℕ
  pub cadance : ℕ
  pub backwards : Bool

abbrev pub group_point : Driver → ℕ → ℕ → ℕ → Option ℕ → Bool → StartingPoint
group_point d x opt cadance rr backwards = record {
  groupmatch = if leb 64 x then d.wide_shift x else 2 ^ x;
  channelmatch = negsuc 0;
  rr = rr;
  opt = opt;
  cadance = cadance;
  backwards = backwards;
}

-- Where the search begins: the token, and the option and its number as they are once the text of the
-- request has been read.
unfoldable pub determine_starting_point : Driver → Token → ℕ → ℕ → StartingPoint × Option ℕ
determine_starting_point d (group_forward x) opt cadance =
    (group_point d x opt cadance none false, d.links.iflist)
determine_starting_point d (group_backward x) opt cadance =
    (group_point d x opt cadance none true, d.links.ifend)
determine_starting_point d (round_forward x) opt cadance = (
  group_point d x opt cadance (some x) false,
  if leb 32 x then none else or_else (bind (d.round_robin x) d.links.next) d.links.iflist,
)
determine_starting_point d (round_backward x) opt cadance = (
  group_point d x opt cadance (some x) true,
  if leb 32 x then none else or_else (bind (d.round_robin x) d.links.prev) d.links.ifend,
)
determine_starting_point d (channel x) opt cadance = (
  record {
    groupmatch = 0;
    channelmatch = x;
    rr = none;
    opt = opt;
    cadance = cadance;
    backwards = false;
  },
  d.links.iflist,
)

-- `*groupmatched` and `*channelmatched`.
pub record Matched : Type 0 where
  pub by_group : Bool
  pub by_channel : Bool

unfoldable pub is_group_or_channel_match : Driver → StartingPoint → ℕ → Matched → Bool × Matched
is_group_or_channel_match d start p m =
    let g = start.groupmatch in
    if not (g == 0) && not (bit_and (d.pvt p).group g == g)
    then (false, m)
    else (let m1 : Matched = record m { by_group = m.by_group || not (g == 0) } in
        if equal start.channelmatch (negsuc 0)
        then (true, m1)
        else if equal (d.links.channel p) start.channelmatch
        then (true, record m1 { by_channel = true })
        else (false, m1))

unfoldable pub available : Driver → ℕ → Bool
available d p =
    let pvt = d.pvt p in
    not pvt.inalarm && (not pvt.owner && (not pvt.gsm || not (pvt.resetting || pvt.gsmcall)))

-- What is outside: whether `extra_new` makes a channel for the interface, the memory for a copy of
-- the pseudo interface with its device opened, where there is one, and the number of interfaces.
pub record Env : Type 0 where
  pub makes : ℕ → Bool
  pub fresh : Option ℕ
  pub interfaces : ℕ

-- The copy `r` of the interface `src`, put into the list.
abbrev pub copied : Env → Driver → ℕ → ℕ → Driver
copied env d src r =
    let links : Links = record d.links {
      channel = write d.links.channel r (d.links.channel src);
    } in
    record d { links = extra_iflist_insert env.interfaces links r; pvt = write d.pvt r (d.pvt src) }

unfoldable pub duplicate_pseudo : Env → Driver → ℕ → Option (Driver × ℕ)
duplicate_pseudo env d src = bind env.fresh (λ r. some (copied env d src r, r))

-- How the search ends: with a channel for an interface, or without one: the search came back to
-- where it began, the list is empty, the first interface that would do has no D-channel, or there
-- was no memory for a copy or for the channel. `spinning` is the loop without a round left.
pub data Outcome : Type 0 where
  made : ℕ → Outcome
  refused down no_copy no_channel spinning : Outcome

unfoldable pub noted : StartingPoint → Pvt → Pvt
noted start pvt =
    if start.opt == b'c'
    then record pvt { confirmanswer = true }
    else (if start.opt == b'r' then record pvt { distinctivering = start.cadance } else pvt)

-- A channel is made for the interface, which then has an owner.
unfoldable pub make_channel : Env → Driver → StartingPoint → ℕ → Driver × Outcome
unfolding noted
make_channel env d start p =
    let pvt = noted start (d.pvt p) in
    if env.makes p
    then (
      record d { pvt = write d.pvt p (record pvt { outgoing = true; owner = true }) },
      Outcome.made p,
    )
    else (record d { pvt = write d.pvt p (record pvt { outgoing = false }) }, Outcome.no_channel)

-- An interface that matches and is available.
unfoldable pub take_interface : Env → Driver → StartingPoint → ℕ → Driver × Outcome
unfolding duplicate_pseudo make_channel
take_interface env d start p =
    if (d.pvt p).gsm && not (d.pvt p).dchan_up
    then (d, Outcome.down)
    else if equal (d.links.channel p) (negsuc 1)
    then elim (duplicate_pseudo env d p) [
      | none ↦ (d, Outcome.no_copy)
      | some copy ↦ make_channel env copy.0 start copy.1
    ]
    else make_channel env d start p

-- The next one in the direction of the search, round the end of the list.
unfoldable pub go_on : Links → Bool → ℕ → Option ℕ
go_on l backwards p = if backwards then or_else (l.prev p) l.ifend else or_else (l.next p) l.iflist

-- The entry for round robin is the interface that was looked at last.
abbrev pub mark : Option ℕ → Driver → ℕ → Driver
mark none d p = d
mark (some x) d p = record d { round_robin = write d.round_robin x (some p) }

-- The loop, with as many rounds as interfaces.
unfoldable pub search_loop :
    ℕ → Env → Driver → StartingPoint → ℕ → Option ℕ → Matched → Driver × Matched × Outcome
unfolding is_group_or_channel_match available take_interface go_on
search_loop n env d start exit none m = (d, m, Outcome.refused)
search_loop zero env d start exit (some p) m = (d, m, Outcome.spinning)
search_loop (suc n) env d start exit (some p) m =
    let d1 = mark start.rr d p in
    let (match, m1) = is_group_or_channel_match d1 start p m in
    elim (match && available d1 p) [
      | true ↦ (let (d2, o) = take_interface env d1 start p in (d2, m1, o))
      | false ↦ elim (go_on d1.links start.backwards p) [
        | none ↦ (d1, m1, Outcome.refused)
        | some q ↦ elim (q == exit) [
          | true ↦ (d1, m1, Outcome.refused)
          | false ↦ search_loop n env d1 start exit (some q) m1
        ]
      ]
    ]

-- `*cause` where no channel was made: AST_CAUSE_BUSY, AST_CAUSE_CONGESTION or as it was. An available
-- interface has no owner, so that `callwait` is never set.
pub data Cause : Type 0 where
  busy congestion unset : Cause

unfoldable pub extra_request : Env → Driver → Token → ℕ → ℕ → Driver × Outcome × Cause
unfolding determine_starting_point search_loop
extra_request env d token opt cadance =
    let (start, p) = determine_starting_point d token opt cadance in
    elim p [
      | none ↦ (d, Outcome.refused, unset)
      | some exit ↦
          (let (d1, m, o) =
              search_loop env.interfaces env d start exit (some exit)
                (record { by_group = false; by_channel = false }) in
            (
              d1,
              o,
              elim o [
                | made r ↦ unset
                | _ ↦ if m.by_channel then busy else (if m.by_group then congestion else unset)
              ],
            ))
    ]
