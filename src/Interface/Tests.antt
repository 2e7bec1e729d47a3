-- ===== src/Interface/Tests.antt =====
-- Three interfaces in a list, of which the second has an owner.
use chan_extra.Prelude.{
  ◌-◌, ℕ, ◌*◌, ◌≡◌, refl, pos, true, false, none, some, [], ◌∷◌, ◌++◌, arith, ◌==◌,
}
use chan_extra.Interface.Links.{Links, write, extra_iflist_extract, extra_iflist_insert}
use chan_extra.Interface.Chain.{IsListed}
use chan_extra.Interface.Insert.{insert_sorted}
use chan_extra.Interface.Sorted.{IsSorted, iflist_insert-IsListed}
use chan_extra.Interface.Extract.{iflist_extract-IsListed}
use chan_extra.Interface.Destroy.{destroy_all_channels-IsListed, destroy_all_channels}
use chan_extra.Interface.Request.{Driver, Env, Outcome, Pvt, Token, extra_request, group_backward}

-- The channel of an interface is 10 times its reference.
abbrev empty : Links
empty = record {
  channel = λ r. pos (r * 10);
  span = λ r. 1;
  manages_span_alarms = λ r. r == 1;
  prev = λ r. none;
  next = λ r. none;
  listed = λ r. false;
  iflist = none;
  ifend = none;
}

-- The interfaces 1, 2 and 3.
abbrev three : Links
three = record {
  channel = λ r. pos (r * 10);
  span = λ r. 1;
  manages_span_alarms = λ r. r == 1;
  prev = write (write (λ r. none) 2 (some 1)) 3 (some 2);
  next = write (write (λ r. none) 1 (some 2)) 2 (some 3);
  listed = λ r. true;
  iflist = some 1;
  ifend = some 3;
}

three-IsListed : IsListed three (1 ∷ 2 ∷ 3 ∷ [])
three-IsListed = record {
  chained = (refl, refl, (refl, refl, (refl, refl, tt)));
  head = refl;
  tail = refl;
  distinct = ((refl, (refl, tt)), ((refl, tt), (tt, tt)));
}

iflist_insert-IsListed_example :
    IsListed (extra_iflist_insert 3 three 0) (insert_sorted three.channel 0 (1 ∷ 2 ∷ 3 ∷ []))
    × IsSorted
        (extra_iflist_insert 3 three 0).channel
        (insert_sorted three.channel 0 (1 ∷ 2 ∷ 3 ∷ []))
iflist_insert-IsListed_example =
    iflist_insert-IsListed 3 three 0 (1 ∷ 2 ∷ 3 ∷ []) (refl, (refl, (refl, tt))) three-IsListed
      ((refl, (refl, tt)), ((refl, tt), (tt, tt))) (omega arith)

iflist_extract-IsListed_example :
    IsListed (extra_iflist_extract three 2) ((1 ∷ []) ++ (3 ∷ []))
    × ((extra_iflist_extract three 2).prev 2 ≡ none)
    × ((extra_iflist_extract three 2).next 2 ≡ none)
iflist_extract-IsListed_example = iflist_extract-IsListed three 2 (1 ∷ []) (3 ∷ []) three-IsListed

destroy_all_channels-IsListed_example :
    (st : Links) × (destroy_all_channels 5 (λ i. 2 - i) 3 three ≡ some st) × IsListed st []
destroy_all_channels-IsListed_example =
    destroy_all_channels-IsListed 5 (λ i. 2 - i) 2 3 three (1 ∷ 2 ∷ 3 ∷ []) refl (omega arith)
      three-IsListed (refl, (refl, (refl, tt))) (omega arith)

abbrev interface : ℕ → Pvt
interface r = record {
  group = 2;
  inalarm = false;
  owner = r == 2;
  gsm = true;
  resetting = false;
  gsmcall = false;
  dchan_up = r == 3;
  outgoing = false;
  confirmanswer = false;
  distinctivering = 0;
}

abbrev driver : Driver
driver = record { links = three; pvt = interface; round_robin = λ x. none; wide_shift = λ x. 0 }

abbrev env : Env
env = record { makes = λ r. true; fresh = none; interfaces = 3 }

-- The third is taken from the end; the first has no D-channel, and the search goes no further.
from_the_end : (extra_request env driver (group_backward 1) 0 0).1 ≡ Outcome.made 3
unfolding extra_request
from_the_end = refl

from_the_front : (extra_request env driver (Token.group_forward 1) 0 0).1 ≡ Outcome.down
unfolding extra_request
from_the_front = refl

in_order :
    (extra_iflist_insert 2 (extra_iflist_insert 1 (extra_iflist_insert 0 empty 2) 1) 3).ifend
    ≡ some 3
unfolding extra_iflist_insert
in_order = refl
