-- ===== src/Ztp/Build.antt =====
-- internal/ztp/generated_mode.go: the data of a generated script.
pub mod Kubeconfig
pub mod Containers
use sonic_operator.Base.{
  ℕ, ◌+◌, ◌-◌, ◌*◌, ◌/◌, ◌%◌, Text, String, codes, is_empty, text_eq, Bool, true, false, not, ◌||◌,
  ◌&&◌, Option, none, some, List, [], ◌∷◌, ◌++◌, if◌then◌else◌, ltb, ◌==◌, Error, errorf, wrapf,
  Arg, str, Result, ok, err, Dict,
}
use sonic_operator.Base.Int.{ℤ}
use sonic_operator.Api.{
  Switch, Container, ContainerSecurityContext, next_boot_mode_none, next_boot_mode_install_os,
}
use sonic_operator.Ztp.Volumes.{
  host_path_volumes, container_volume_mounts, container_docker_user, runs_as_user,
}

pub record ContainerData : Type 0 where
  pub name : Text
  pub image : Text
  pub host_pid : Bool
  pub privileged : Bool
  pub docker_user : Text
  pub volume_mounts : List Text
  pub inject_control_kubeconfig : Bool
  pub encoded_control_kubeconfig : Text
  pub control_kubeconfig_path : Text
  pub entrypoint : Text
  pub command : List Text
  pub args : List Text
  pub failure_message : Text

pub record TemplateData : Type 0 where
  pub switch_name : Text
  pub hostname : Text
  pub configure_onie : Bool
  pub containers : List ContainerData

-- base64.StdEncoding
base64_digit : ℕ → ℕ
base64_digit n =
    if ltb n 26
    then b'A' + n
    else if ltb n 52
    then 71 + n
    else if ltb n 62
    then n - 4
    else if n == 62
    then b'+'
    else b'/'

unfoldable pub base64 : List ℕ → Text
unfolding base64_digit
base64 [] = []
base64 (a ∷ []) = base64_digit (a / 4) ∷ base64_digit (a % 4 * 16) ∷ b'=' ∷ b'=' ∷ []
base64 (a ∷ b ∷ []) =
    base64_digit (a / 4)
    ∷ base64_digit (a % 4 * 16 + b / 16)
    ∷ base64_digit (b % 16 * 4)
    ∷ b'='
    ∷ []
base64 (a ∷ b ∷ c ∷ bytes) =
    base64_digit (a / 4)
    ∷ base64_digit (a % 4 * 16 + b / 16)
    ∷ base64_digit (b % 16 * 4 + c / 64)
    ∷ base64_digit (c % 64)
    ∷ base64 bytes

-- Whether the boot mode asks for ONIE.
unfoldable pub configures_onie : Text → Result Error Bool
configures_onie mode =
    if is_empty mode || text_eq mode next_boot_mode_none
    then ok false
    else if text_eq mode next_boot_mode_install_os
    then ok true
    else err (errorf "unsupported next boot mode %q" (str mode ∷ []))

unfoldable pub volumes_of : Switch → Result Error (Dict Text)
volumes_of s = elim s.spec.containers [ [] ↦ ok [] | c ∷ cs ↦ host_path_volumes s.spec.volumes ]

unfoldable pub is_privileged : Option ContainerSecurityContext → Bool
is_privileged none = false
is_privileged (some context) = context.privileged

unfoldable pub entrypoint_of : List Text → Text
entrypoint_of [] = []
entrypoint_of (c ∷ command) = c

unfoldable pub command_of : List Text → List Text
command_of [] = []
command_of (c ∷ command) = command

unfoldable pub kubeconfig_path : Container → Text
kubeconfig_path c =
    codes "/etc/sonic-operator/credentials/" ++ (c.name ++ codes "/control-kubeconfig")

-- What is appended for a container.
unfoldable pub describe : Container → Text → List Text → Text → ContainerData
describe c user mounts encoded = record {
  name = c.name;
  image = c.image;
  host_pid = c.host_pid;
  privileged = is_privileged c.security_context;
  docker_user = user;
  volume_mounts = mounts;
  inject_control_kubeconfig = c.inject_control_kubeconfig;
  encoded_control_kubeconfig = encoded;
  control_kubeconfig_path = if c.inject_control_kubeconfig then kubeconfig_path c else [];
  entrypoint = entrypoint_of c.command;
  command = command_of c.command;
  args = c.args;
  failure_message = codes "sonic-operator: container " ++ (c.name ++ codes " failed; continuing");
}

-- The last test of a round, which the containers with an injected kubeconfig must pass.
container_data : Container → Text → List Text → Text → Result Error ContainerData
container_data c user mounts encoded =
    if c.inject_control_kubeconfig && not (runs_as_user c.security_context)
    then err (
        errorf "container %q injects the control kubeconfig but has no securityContext.runAsUser"
          (str c.name ∷ []))
    else ok (describe c user mounts encoded)

-- One round of the loop over the containers.
unfoldable pub build_container : Dict Text → Text → Container → Result Error ContainerData
unfolding container_data
build_container volumes encoded c = elim (container_docker_user c) [
  | err e ↦ err e
  | ok user ↦ elim (container_volume_mounts c volumes) [
    | err e ↦ err e
    | ok mounts ↦ container_data c user mounts encoded
  ]
]

unfoldable pub containers_loop :
    Dict Text → Text → List Container → List ContainerData → Result Error (List ContainerData)
containers_loop volumes encoded [] built = ok built
containers_loop volumes encoded (c ∷ containers) built = elim (build_container volumes encoded c) [
  | err e ↦ err e
  | ok d ↦ containers_loop volumes encoded containers (built ++ d ∷ [])
]

-- os.ReadFile is a parameter: the bytes of a file.
module _ (read_file : Text → Result Error (List ℕ)) (path : Text) where
  encode_file : Result Error (List ℕ) → Result Error Text
  encode_file (ok bytes) = ok (base64 bytes)
  encode_file (err e) = err (wrapf "reading control kubeconfig file %q: %w" (str path ∷ []) e)

  read_kubeconfig : Result Error Text
  unfolding encode_file
  read_kubeconfig =
      if is_empty path
      then err (errorf "injectControlKubeconfig requires --bootstrap-control-kubeconfig-file" [])
      else encode_file (read_file path)

  -- The loop that reads the kubeconfig for the first container that asks for it; an empty file is
  -- read again for the next.
  unfoldable pub kubeconfig_loop : List Container → Text → Result Error Text
  unfolding read_kubeconfig
  kubeconfig_loop [] encoded = ok encoded
  kubeconfig_loop (c ∷ containers) encoded =
      let skip = kubeconfig_loop containers encoded in
      if not c.inject_control_kubeconfig || not (is_empty encoded)
      then skip
      else elim read_kubeconfig [ err e ↦ err e | ok text ↦ kubeconfig_loop containers text ]

  with_containers :
      Switch → Text → Bool → Result Error (List ContainerData) → Result Error TemplateData
  with_containers s hostname onie (err e) = err e
  with_containers s hostname onie (ok containers) = ok (record {
    switch_name = s.name;
    hostname = hostname;
    configure_onie = onie;
    containers = containers;
  })

  with_kubeconfig : Switch → Text → Bool → Dict Text → Result Error Text → Result Error TemplateData
  unfolding with_containers
  with_kubeconfig s hostname onie volumes (err e) = err e
  with_kubeconfig s hostname onie volumes (ok encoded) =
      with_containers s hostname onie (containers_loop volumes encoded s.spec.containers [])

  with_volumes : Switch → Text → Bool → Result Error (Dict Text) → Result Error TemplateData
  unfolding with_kubeconfig
  with_volumes s hostname onie (err e) = err e
  with_volumes s hostname onie (ok volumes) =
      with_kubeconfig s hostname onie volumes (kubeconfig_loop s.spec.containers [])

  with_onie : Switch → Text → Result Error Bool → Result Error TemplateData
  unfolding with_volumes
  with_onie s hostname (err e) = err e
  with_onie s hostname (ok onie) = with_volumes s hostname onie (volumes_of s)

  unfoldable pub build_template_data : Switch → Result Error TemplateData
  unfolding with_onie
  build_template_data s =
      let hostname = if is_empty s.spec.hostname then s.name else s.spec.hostname in
      if is_empty hostname
      then err (errorf "hostname is empty" [])
      else with_onie s hostname (configures_onie s.spec.next_boot_mode)
