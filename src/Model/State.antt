-- ===== src/Model/State.antt =====
-- The names of the states.
use refmon.Prelude.{◌≡◌, ◌↔◌, true, some, arith}
use refmon.CStr.{Str}
use refmon.CStr.Match.{match_string_iff}
use refmon.Model.{
  RefmonState, einval, state_string_off, state_string_on, state_string_recoff, state_string_recon,
  string_to_state, state_to_string, is_state_valid,
}

-- Reading back the name of a state gives the state, and a text that is read as an enumerator is
-- the name of that enumerator.
pub state_names_iff :
    (s : Str) (t : RefmonState)
    → (state_to_string t ≡ some s) ↔ ((string_to_state s ≡ t) × (t ≡ einval → ⊥))
unfolding string_to_state state_to_string
state_names_iff s t = ground (
  arith,
  match_string_iff s state_string_off,
  match_string_iff s state_string_on,
  match_string_iff s state_string_recoff,
  match_string_iff s state_string_recon,
)

-- The validity test accepts exactly the texts that are read as an enumerator.
pub is_state_valid_iff : (s : Str) → (is_state_valid s ≡ true) ↔ (string_to_state s ≡ einval → ⊥)
unfolding string_to_state is_state_valid
is_state_valid_iff s = ground arith
