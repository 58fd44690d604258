-- ===== src/Api.antt =====
-- api/v1alpha1: the custom resources Switch and SwitchInterface, as far as the program reads them.
use sonic_operator.Base.{Text, codes, Bool, Option, List, []}
use sonic_operator.Base.Int.{ℤ}

pub record Management : Type 0 where
  pub host : Text
  pub port : Text

pub record ConfigMapReference : Type 0 where
  pub namespace : Text
  pub name : Text
  pub key : Text

pub record Ztp : Type 0 where
  pub source_address : Text
  pub script_ref : Option ConfigMapReference

pub record VolumeMount : Type 0 where
  pub name : Text
  pub mount_path : Text
  pub read_only : Bool

pub record ContainerSecurityContext : Type 0 where
  pub privileged : Bool
  pub run_as_user : Option ℤ
  pub run_as_group : Option ℤ

pub record Container : Type 0 where
  pub name : Text
  pub image : Text
  pub command : List Text
  pub args : List Text
  pub volume_mounts : List VolumeMount
  pub host_pid : Bool
  pub security_context : Option ContainerSecurityContext
  pub inject_control_kubeconfig : Bool

-- `host_path` is the path of the HostPathVolumeSource, if there is one.
pub record Volume : Type 0 where
  pub name : Text
  pub host_path : Option Text

pub record PortSpec : Type 0 where
  pub name : Text

pub record SwitchSpec : Type 0 where
  pub hostname : Text
  pub management : Management
  pub ztp : Option Ztp
  pub containers : List Container
  pub volumes : List Volume
  pub next_boot_mode : Text
  pub mac_address : Text
  pub ports : List PortSpec

-- The references by their names.
pub record PortStatus : Type 0 where
  pub name : Text
  pub interface_refs : List Text

-- Without the conditions, which no code of the operator reads or sets.
pub record SwitchStatus : Type 0 where
  pub state : Text
  pub ports : List PortStatus
  pub mac_address : Text
  pub firmware_version : Text
  pub sku : Text

pub record Switch : Type 0 where
  pub name : Text
  pub namespace : Text
  pub uid : Text
  pub deleting : Bool
  pub finalizers : List Text
  pub spec : SwitchSpec
  pub status : SwitchStatus

unfoldable pub next_boot_mode_none : Text
next_boot_mode_none = codes "None"

unfoldable pub next_boot_mode_install_os : Text
next_boot_mode_install_os = codes "InstallOS"

unfoldable pub switch_finalizer : Text
switch_finalizer = codes "sonic.networking.metal.ironcore.dev/sonic-operator"

unfoldable pub switch_state_ready : Text
switch_state_ready = codes "Ready"

-- The reference to the switch by its name, if there is one.
pub record SwitchInterfaceSpec : Type 0 where
  pub handle : Text
  pub native_name : Text
  pub switch_ref : Option Text
  pub admin_state : Text

pub record Neighbor : Type 0 where
  pub mac_address : Text
  pub system_name : Text
  pub interface_handle : Text

pub record SwitchInterfaceStatus : Type 0 where
  pub admin_state : Text
  pub operational_state : Text
  pub state : Text
  pub neighbor : Neighbor
  pub mac_address : Text
  pub alias_name : Text

pub record SwitchInterface : Type 0 where
  pub name : Text
  pub namespace : Text
  pub deleting : Bool
  pub finalizers : List Text
  pub spec : SwitchInterfaceSpec
  pub status : SwitchInterfaceStatus

abbrev pub no_neighbor : Neighbor
no_neighbor = record { mac_address = []; system_name = []; interface_handle = [] }

unfoldable pub interface_state_pending : Text
interface_state_pending = codes "Pending"

unfoldable pub interface_state_ready : Text
interface_state_ready = codes "Ready"

unfoldable pub interface_state_failed : Text
interface_state_failed = codes "Failed"
