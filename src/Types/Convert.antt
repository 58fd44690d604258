-- ===== src/Types/Convert.antt =====
-- internal/agent/types/conversion_utils.go, with the states of the API; the names of interfaces are
-- in module Names.
use sonic_operator.Base.{
  Text, codes, text_eq, ◌≡◌, ◌↔◌, ◌⊎◌, ◌&&◌, not, [], ◌∷◌, if◌then◌else◌, Error, errorf, str,
  Result, ok, err, arith, text_eq_iff,
}

-- api.AdminState and api.OperationState are strings with these values.
abbrev pub State : Type 0
State = Text

unfoldable pub state_up : State
state_up = codes "Up"

unfoldable pub state_down : State
state_down = codes "Down"

unfoldable pub state_unknown : State
state_unknown = codes "Unknown"

unfoldable pub validate_device_status : Text → Result Error Text
validate_device_status status =
    if not (text_eq status (codes "up")) && not (text_eq status (codes "down"))
    then err (errorf "invalid device status: %s, it has to be 'up' or 'down'" (str status ∷ []))
    else ok status

-- The state that comes beside an error is Unknown.
unfoldable pub to_admin_state : Text → State × Result Error (Unit {0})
to_admin_state status =
    if text_eq status (codes "up")
    then (state_up, ok tt)
    else if text_eq status (codes "down")
    then (state_down, ok tt)
    else (state_unknown, err (errorf "unknown device status: %s" (str status ∷ [])))

unfoldable pub of_admin_state : State → Text × Result Error (Unit {0})
of_admin_state state =
    if text_eq state state_up
    then (codes "up", ok tt)
    else if text_eq state state_down
    then (codes "down", ok tt)
    else (codes "unknown", err (errorf "unknown admin state: %s" (str state ∷ [])))

unfoldable pub to_operation_state : Text → State × Result Error (Unit {0})
to_operation_state status =
    if text_eq status (codes "up")
    then (state_up, ok tt)
    else if text_eq status (codes "down")
    then (state_down, ok tt)
    else (state_unknown, err (errorf "unknown device status: %s" (str status ∷ [])))

unfoldable pub of_operation_state : State → Text × Result Error (Unit {0})
of_operation_state state =
    if text_eq state state_up
    then (codes "up", ok tt)
    else if text_eq state state_down
    then (codes "down", ok tt)
    else (codes "unknown", err (errorf "unknown operation state: %s" (str state ∷ [])))

-- Exactly `up` and `down` are converted, to Up and Down, and exactly what is converted is given back by
-- the conversion back.
pub of_admin_state-to_admin_state :
    (status : Text)
    → (((to_admin_state status).1 ≡ ok tt) ↔ (
        ((status ≡ codes "up") × ((to_admin_state status).0 ≡ codes "Up"))
        ⊎ ((status ≡ codes "down") × ((to_admin_state status).0 ≡ codes "Down"))))
      × (((to_admin_state status).1 ≡ ok tt)
          ↔ (of_admin_state (to_admin_state status).0 ≡ (status, ok tt)))
unfolding to_admin_state of_admin_state state_up state_down codes text_eq
of_admin_state-to_admin_state status = (
  (
    λ h. ground (arith, text_eq_iff status (codes "up"), text_eq_iff status (codes "down")),
    λ h. ground (arith, text_eq_iff status (codes "up"), text_eq_iff status (codes "down")),
  ),
  (
    λ h. ground (arith, text_eq_iff status (codes "up"), text_eq_iff status (codes "down")),
    λ h. ground (arith, text_eq_iff status (codes "up"), text_eq_iff status (codes "down")),
  ),
)
