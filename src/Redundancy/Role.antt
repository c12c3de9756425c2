-- ===== src/Redundancy/Role.antt =====
-- platform/internal/machine/redundancy/role.go and state.go: the fixed instance roles and the two
-- states an instance can be in. Both are Go string types, so any text is a value of them.
use opdl.Base.{String, Bool, Option, none, some, ◌==◌, string_eq, ◌||◌, if◌then◌else◌}
use Prim.Native.String.{◌++◌}

abbrev pub InstanceRole : Type 0
InstanceRole = String

abbrev pub role_primary : InstanceRole
role_primary = "primary"

abbrev pub role_standby : InstanceRole
role_standby = "standby"

-- `InstanceRole.Valid`.
unfoldable pub role_valid : InstanceRole → Bool
role_valid r = (r == role_primary) || (r == role_standby)

-- `ParseRole`; `none` is its error.
unfoldable pub parse_role : String → Option InstanceRole
parse_role s = if (s == role_primary) || (s == role_standby) then some s else none

unfoldable pub operational_name : String → InstanceRole → String
operational_name machine role = machine ++ ("/" ++ role)

abbrev pub State : Type 0
State = String

abbrev pub state_passive : State
state_passive = "passive"

abbrev pub state_active : State
state_active = "active"

-- `State.Valid` and `State.Active`.
unfoldable pub state_valid : State → Bool
state_valid s = (s == state_passive) || (s == state_active)

unfoldable pub is_active : State → Bool
is_active s = s == state_active
