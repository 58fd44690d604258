-- ===== src/Types.antt =====
-- internal/agent/types and internal/agent/errors: what the agent, its server and its client exchange.
pub mod Convert
use sonic_operator.Base.{
  ℕ, Text, String, codes, text_eq, List, [], ◌∷◌, ◌++◌, Error, errorf, Arg, str, int, Option, Bool,
  if◌then◌else◌, ◌==◌,
}
use sonic_operator.Base.Int.{pos}
use sonic_operator.Strconv.{format_nat}

-- A message is the text that a format gives, kept as the format and what it is given.
pub record Status : Type 0 where
  pub code : ℕ
  pub message : Error

abbrev pub no_message : Error
no_message = errorf "" []

-- Status.String
unfoldable pub show_status : Status → Error
show_status status =
    if status.code == 0
    then status.message
    else Error.wrapf "Code: %d, Message: %s" (int (pos status.code) ∷ []) status.message

unfoldable pub new_error_status : ℕ → Error → Status
new_error_status code message = record { code = code; message = message }

unfoldable pub new_correct_status : Status
new_correct_status = record { code = 0; message = no_message }

abbrev pub client_error : ℕ
client_error = 1

abbrev pub bad_request : ℕ
bad_request = 101

abbrev pub not_found : ℕ
not_found = 201

abbrev pub redis_hset_fail : ℕ
redis_hset_fail = 203

abbrev pub redis_key_check_fail : ℕ
redis_key_check_fail = 205

-- A device status is a string: `down`, `up`, `unknown`, or whatever a caller sends.
abbrev pub DeviceStatus : Type 0
DeviceStatus = Text

unfoldable pub status_down : DeviceStatus
status_down = codes "down"

unfoldable pub status_up : DeviceStatus
status_up = codes "up"

unfoldable pub status_unknown : DeviceStatus
status_unknown = codes "unknown"

abbrev pub status_ready : ℕ
status_ready = 1

-- The kinds, by the names of the Go types.
pub data Kind : Type 0 where
  no_kind device_kind interface_kind interface_list_kind port_kind port_list_kind : Kind
  interface_neighbor_kind : Kind

pub record SwitchDevice : Type 0 where
  pub kind : Kind
  pub local_mac_address : Text
  pub hwsku : Text
  pub sonic_os_version : Text
  pub asic_type : Text
  pub readiness : ℕ
  pub status : Status

pub record Interface : Type 0 where
  pub kind : Kind
  pub name : Text
  pub native_name : Text
  pub alias_name : Text
  pub mac_address : Text
  pub operation_status : DeviceStatus
  pub admin_status : DeviceStatus
  pub status : Status

pub record InterfaceList : Type 0 where
  pub kind : Kind
  pub items : List Interface
  pub status : Status

pub record InterfaceNeighbor : Type 0 where
  pub kind : Kind
  pub name : Text
  pub mac_address : Text
  pub system_name : Text
  pub handle : Text
  pub status : Status

pub record Port : Type 0 where
  pub kind : Kind
  pub name : Text
  pub alias : Text
  pub status : Status

pub record PortList : Type 0 where
  pub kind : Kind
  pub items : List Port
  pub status : Status

abbrev pub zero_status : Status
zero_status = record { code = 0; message = no_message }

abbrev pub ok_status : Status
ok_status = record { code = 0; message = errorf "ok" [] }

-- The zero value of an interface.
abbrev pub empty_interface : Interface
empty_interface = record {
  kind = Kind.no_kind;
  name = [];
  native_name = [];
  alias_name = [];
  mac_address = [];
  operation_status = [];
  admin_status = [];
  status = zero_status;
}

-- SwitchDevice.GetName
unfoldable pub device_name : SwitchDevice → Text
device_name d = codes "switch" ++ (codes "-" ++ d.local_mac_address)
