-- ===== src/Ztp/Volumes.antt =====
-- internal/ztp/generated_mode.go: the volumes of a switch, and the mounts and the user of a container.
pub mod Valid
pub mod Mounts
pub mod User
use sonic_operator.Base.{
  ℕ, Text, String, codes, is_empty, has_prefix, Bool, true, false, not, Option, none, some, List,
  [], ◌∷◌, ◌++◌, if◌then◌else◌, Error, errorf, Arg, str, Result, ok, err, Dict, lookup, insert,
}
use sonic_operator.Base.Int.{ℤ}
use sonic_operator.Strconv.{itoa}
use sonic_operator.Api.{Volume, VolumeMount, Container, ContainerSecurityContext}

-- What the host path of a volume must be.
check_path : Text → Option Text → Result Error Text
check_path name none = err (errorf "volume %q must specify hostPath" (str name ∷ []))
check_path name (some path) =
    if has_prefix path (codes "/")
    then ok path
    else err (errorf "volume %q hostPath %q must be absolute" (str name ∷ str path ∷ []))

-- The tests that a round of the loop makes, in their order; `seen` is the map so far.
unfoldable pub check_volume : Dict Text → Volume → Result Error Text
unfolding check_path
check_volume seen volume =
    if is_empty volume.name
    then err (errorf "volume name is empty" [])
    else elim (lookup volume.name seen) [
      | some path ↦ err (errorf "duplicate volume %q" (str volume.name ∷ []))
      | none ↦ check_path volume.name volume.host_path
    ]

unfoldable pub volumes_loop : List Volume → Dict Text → Result Error (Dict Text)
volumes_loop [] result = ok result
volumes_loop (volume ∷ volumes) result = elim (check_volume result volume) [
  | err e ↦ err e
  | ok path ↦ volumes_loop volumes (insert volume.name path result)
]

unfoldable pub host_path_volumes : List Volume → Result Error (Dict Text)
unfolding volumes_loop
host_path_volumes volumes = volumes_loop volumes []

-- hostPath + ":" + mountPath + ":" + mode
unfoldable pub bind_mount : Text → VolumeMount → Text
bind_mount host_path mount =
    host_path
    ++ (codes ":"
        ++ (mount.mount_path
            ++ (codes ":" ++ (if mount.read_only then codes "ro" else codes "rw"))))

-- The tests of a round; the host path where they pass.
unfoldable pub check_mount : Text → Dict Text → Dict (Unit {0}) → VolumeMount → Result Error Text
check_mount container volumes mount_paths mount = elim (lookup mount.name volumes) [
  | none ↦
      err (errorf "container %q mounts unknown volume %q" (str container ∷ str mount.name ∷ []))
  | some host_path ↦
      if not (has_prefix mount.mount_path (codes "/"))
      then err (
          errorf "container %q mountPath %q must be absolute"
            (str container ∷ str mount.mount_path ∷ []))
      else elim (lookup mount.mount_path mount_paths) [
        | some u ↦ err (
            errorf "container %q mounts multiple volumes at %q"
              (str container ∷ str mount.mount_path ∷ []))
        | none ↦ ok host_path
      ]
]

unfoldable pub mounts_loop :
    Text → Dict Text → List VolumeMount → Dict (Unit {0}) → List Text → Result Error (List Text)
mounts_loop container volumes [] mount_paths result = ok result
mounts_loop container volumes (mount ∷ mounts) mount_paths result =
    elim (check_mount container volumes mount_paths mount) [
      | err e ↦ err e
      | ok host_path ↦
          mounts_loop container volumes mounts (insert mount.mount_path tt mount_paths)
            (result ++ bind_mount host_path mount ∷ [])
    ]

unfoldable pub container_volume_mounts : Container → Dict Text → Result Error (List Text)
unfolding mounts_loop
container_volume_mounts container volumes =
    mounts_loop container.name volumes container.volume_mounts [] []

user_of : Text → Option ℤ → Option ℤ → Result Error Text
user_of container none none = ok []
user_of container none (some group) = err (
    errorf "container %q sets securityContext.runAsGroup without securityContext.runAsUser"
      (str container ∷ []))
user_of container (some user) none = ok (itoa user)
user_of container (some user) (some group) = ok (itoa user ++ (codes ":" ++ itoa group))

context_user : Text → Option ContainerSecurityContext → Result Error Text
unfolding user_of
context_user container none = ok []
context_user container (some context) = user_of container context.run_as_user context.run_as_group

unfoldable pub container_docker_user : Container → Result Error Text
unfolding context_user
container_docker_user container = context_user container.name container.security_context

-- Whether the container's user is given.
unfoldable pub runs_as_user : Option ContainerSecurityContext → Bool
runs_as_user none = false
runs_as_user (some context) = elim context.run_as_user [ none ↦ false | some user ↦ true ]
