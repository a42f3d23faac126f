-- ===== src/Model.antt =====
-- model/: the state of the monitor (state.h, state.c), its registry (registry.h) and the instance
-- that holds both (instance.h, instance.c).
pub mod State
use refmon.Prelude.{
  ℕ, Bool, true, false, not, ◌||◌, Option, none, some, List, [], ◌∷◌, if◌then◌else◌,
}
use refmon.CStr.{Str, codes, match_string}

-- enum refmon_state, and the value -EINVAL that `string_to_state` returns in its place.
pub data RefmonState : Type 0 where
  off on rec_off rec_on einval : RefmonState

pub record PathIdentifier : Type 0 where
  pub path : Str
  pub ino_no : ℕ

pub record RegistryEntry : Type 0 where
  pub registered : PathIdentifier
  pub resolved : PathIdentifier

-- The list of the entries from the head on. A pointer to an entry is its place in the list.
abbrev pub Registry : Type 0
Registry = List RegistryEntry

-- The spin locks are `true` while they are held.
pub record Instance : Type 0 where
  pub state : RefmonState
  pub registry : Registry
  pub password : Str
  pub spinlock_inst : Bool
  pub spinlock_probing : Bool

abbrev pub state_string_off : Str
state_string_off = codes "OFF"

abbrev pub state_string_on : Str
state_string_on = codes "ON"

abbrev pub state_string_recoff : Str
state_string_recoff = codes "REC-OFF"

abbrev pub state_string_recon : Str
state_string_recon = codes "REC-ON"

unfoldable pub string_to_state : Str → RefmonState
string_to_state s =
    if match_string s state_string_off
    then off
    else if match_string s state_string_on
    then on
    else if match_string s state_string_recoff
    then rec_off
    else if match_string s state_string_recon
    then rec_on
    else einval

-- `none` is the NULL that is returned for a value that is no enumerator.
unfoldable pub state_to_string : RefmonState → Option Str
state_to_string off = some state_string_off
state_to_string on = some state_string_on
state_to_string rec_off = some state_string_recoff
state_to_string rec_on = some state_string_recon
state_to_string einval = none

unfoldable pub is_state_valid : Str → Bool
is_state_valid s =
    match_string s state_string_off
    || match_string s state_string_on
    || match_string s state_string_recoff
    || match_string s state_string_recon

-- `the_instance.state == s` for an enumerator `s`.
abbrev pub is_state : RefmonState → RefmonState → Bool
is_state off off = true
is_state on on = true
is_state rec_off rec_off = true
is_state rec_on rec_on = true
is_state _ _ = false

unfoldable pub is_off : Instance → Bool
is_off i = is_state i.state off || is_state i.state rec_off

unfoldable pub is_on : Instance → Bool
unfolding is_off
is_on i = not (is_off i)

unfoldable pub is_reconf : Instance → Bool
is_reconf i = is_state i.state rec_off || is_state i.state rec_on
