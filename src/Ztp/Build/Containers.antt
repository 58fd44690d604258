-- ===== src/Ztp/Build/Containers.antt =====
-- The containers of a generated script are those of the switch.
use sonic_operator.Base.{
  ℕ, ◌↔◌, All, some, codes, Option-cases, ◌≡◌, ◌⊎◌, inl, inr, refl, Text, is_empty, Bool, true,
  false, List, [], ◌∷◌, ◌++◌, append_assoc, append-nil, Result, ok, err, arith, Dict, Result-cases,
  Error, ◌∙◌, if◌then◌else◌, sym, subst,
}
use sonic_operator.Api.{Switch, Container, ContainerSecurityContext}
use sonic_operator.Ztp.Volumes.{container_volume_mounts, container_docker_user}
use sonic_operator.Ztp.Volumes.User.{
  IsUser, IsUserOf, container_docker_user-IsUser, container_docker_user-IsUserOf,
}
use sonic_operator.Ztp.Build.Kubeconfig.{IsFile, injected-IsFile}
use sonic_operator.Ztp.Build.{
  ContainerData, TemplateData, build_template_data, build_container, container_data, describe,
  containers_loop, volumes_of, configures_onie, kubeconfig_loop, with_onie, with_volumes,
  with_kubeconfig, with_containers, entrypoint_of, command_of, is_privileged, kubeconfig_path,
}

-- The security context asks for privileges.
abbrev pub AsksPrivilege : Container → Type 0
AsksPrivilege c =
    (context : ContainerSecurityContext) × (c.security_context ≡ some context)
    × (context.privileged ≡ true)

-- The data run the container as it is declared, and one that gets the control kubeconfig runs as an
-- explicit user.
pub record Runs (volumes : Dict Text) (encoded : Text) (c : Container) (d : ContainerData)
    : Type 0 where
  pub same_name : d.name ≡ c.name
  pub same_image : d.image ≡ c.image
  pub same_pid : d.host_pid ≡ c.host_pid
  pub same_privilege : (d.privileged ≡ true) ↔ AsksPrivilege c
  pub words :
      ((c.command ≡ []) × (d.entrypoint ≡ []) × (d.command ≡ []))
      ⊎ (c.command ≡ d.entrypoint ∷ d.command)
  pub same_args : d.args ≡ c.args
  pub mounts : container_volume_mounts c volumes ≡ ok d.volume_mounts
  pub docker : IsUserOf c.security_context d.docker_user
  pub injects : d.inject_control_kubeconfig ≡ c.inject_control_kubeconfig
  pub injected : d.encoded_control_kubeconfig ≡ encoded
  pub injected_path : d.control_kubeconfig_path ≡ (
      if c.inject_control_kubeconfig
      then codes "/etc/sonic-operator/credentials/" ++ (c.name ++ codes "/control-kubeconfig")
      else [])
  pub as_user : c.inject_control_kubeconfig ≡ true → IsUser d.docker_user
  pub message :
      d.failure_message
      ≡ codes "sonic-operator: container " ++ (c.name ++ codes " failed; continuing")

abbrev pub AllRun : Dict Text → Text → List Container → List ContainerData → Type 0
AllRun volumes encoded [] [] = Unit
AllRun volumes encoded [] (d ∷ ds) = ⊥
AllRun volumes encoded (c ∷ cs) [] = ⊥
AllRun volumes encoded (c ∷ cs) (d ∷ ds) = Runs volumes encoded c d × AllRun volumes encoded cs ds

-- What a generated script is made of.
pub record Describes (read_file : Text → Result Error (List ℕ)) (path : Text) (s : Switch)
    (d : TemplateData) : Type 0 where
  pub switch : d.switch_name ≡ s.name
  pub host : d.hostname ≡ (if is_empty s.spec.hostname then s.name else s.spec.hostname)
  pub host_given : is_empty d.hostname ≡ false
  pub onie : configures_onie s.spec.next_boot_mode ≡ ok d.configure_onie
  pub volumes : Dict Text
  pub mapped : volumes_of s ≡ ok volumes
  pub kubeconfig : Text
  pub read :
      All
        (λ c. c.inject_control_kubeconfig ≡ true → IsFile read_file path kubeconfig)
        s.spec.containers
  pub all_run : AllRun volumes kubeconfig s.spec.containers d.containers

words_of :
    (command : List Text)
    → ((command ≡ []) × (entrypoint_of command ≡ []) × (command_of command ≡ []))
      ⊎ (command ≡ entrypoint_of command ∷ command_of command)
unfolding entrypoint_of command_of
words_of [] = inl (refl, refl, refl)
words_of (w ∷ ws) = inr refl

privileged-Asks : (c : Container) → (is_privileged c.security_context ≡ true) ↔ AsksPrivilege c
unfolding is_privileged
privileged-Asks c = elim (Option-cases c.security_context) [
  | inl e ↦ (λ h. absurd (ground (arith, e, h)), λ (context, f, p). absurd (ground (arith, e, f)))
  | inr (context, e) ↦
      (λ h. (context, e, ground (arith, e, h)), λ (other, f, p). ground (arith, e, f, p))
]

container_data-Runs :
    (volumes : Dict Text) (c : Container) (who : Text) (mounts : List Text) (encoded : Text)
    {d : ContainerData}
    → container_docker_user c ≡ ok who
    → container_volume_mounts c volumes ≡ ok mounts
    → container_data c who mounts encoded ≡ ok d
    → Runs volumes encoded c d
unfolding container_data
container_data-Runs volumes c who mounts encoded {d} u m h = subst (Runs volumes encoded c) same (
    unfold describe kubeconfig_path in
    record {
      same_name = refl;
      same_image = refl;
      same_pid = refl;
      same_privilege = privileged-Asks c;
      injects = refl;
      injected = refl;
      injected_path = refl;
      message = refl;
      words = words_of c.command;
      same_args = refl;
      mounts = m;
      docker = container_docker_user-IsUserOf c u;
      as_user = λ i. container_docker_user-IsUser c (ground arith) u;
    })
  where
    same : describe c who mounts encoded ≡ d
    same = ground arith

build_container-Runs :
    (volumes : Dict Text) (encoded : Text) (c : Container) {d : ContainerData}
    → build_container volumes encoded c ≡ ok d
    → Runs volumes encoded c d
unfolding build_container
build_container-Runs volumes encoded c {d} h = elim (Result-cases (container_docker_user c)) [
  | inl (x, e) ↦ absurd (ground arith)
  | inr (who, e) ↦ elim (Result-cases (container_volume_mounts c volumes)) [
    | inl (x, f) ↦ absurd (ground arith)
    | inr (mounts, f) ↦ container_data-Runs volumes c who mounts encoded e f (ground arith)
  ]
]

loop-AllRun :
    (volumes : Dict Text) (encoded : Text) (cs : List Container) (built : List ContainerData)
    {ds : List ContainerData}
    → containers_loop volumes encoded cs built ≡ ok ds
    → (new : List ContainerData) × (ds ≡ built ++ new) × AllRun volumes encoded cs new
unfolding containers_loop
loop-AllRun volumes encoded [] built {ds} h = ([], ground (arith, append-nil built), tt)
loop-AllRun volumes encoded (c ∷ cs) built {ds} h =
    elim (Result-cases (build_container volumes encoded c)) [
      | inl (x, e) ↦ absurd (ground arith)
      | inr (d, e) ↦
          let (new, split, run) =
            loop-AllRun volumes encoded cs (built ++ d ∷ []) {ds = ds} (ground arith) in
          (
            d ∷ new,
            split ∙ append_assoc built (d ∷ []) new,
            (build_container-Runs volumes encoded c e, run),
          )
    ]

containers-AllRun :
    (volumes : Dict Text) (encoded : Text) (cs : List Container) {ds : List ContainerData}
    → containers_loop volumes encoded cs [] ≡ ok ds
    → AllRun volumes encoded cs ds
containers-AllRun volumes encoded cs {ds} h =
    let (new, same, run) = loop-AllRun volumes encoded cs [] {ds = ds} h in
    subst (AllRun volumes encoded cs) (sym same) run

module _ (read_file : Text → Result Error (List ℕ)) (path : Text) where
  kubeconfig-Describes :
      (s : Switch) (hostname : Text) (onie : Bool) (volumes : Dict Text) (r : Result Error Text)
      {d : TemplateData}
      → with_kubeconfig read_file path s hostname onie volumes r ≡ ok d
      → (d.switch_name ≡ s.name)
        × (d.hostname ≡ hostname)
        × (d.configure_onie ≡ onie)
        × (encoded : Text) × (r ≡ ok encoded)
        × AllRun volumes encoded s.spec.containers d.containers
  unfolding with_kubeconfig with_containers
  kubeconfig-Describes s hostname onie volumes (err e) h = absurd (ground arith)
  kubeconfig-Describes s hostname onie volumes (ok encoded) {d} h =
      elim (Result-cases (containers_loop volumes encoded s.spec.containers [])) [
        | inl (x, e) ↦ absurd (ground arith)
        | inr (ds, e) ↦
            let same : ds ≡ d.containers = ground arith in
            (
              ground arith,
              ground arith,
              ground arith,
              encoded,
              refl,
              subst (AllRun volumes encoded s.spec.containers) same
                  (containers-AllRun volumes encoded s.spec.containers {ds = ds} e),
            )
      ]

  volumes-Describes :
      (s : Switch) (hostname : Text) (onie : Bool) {d : TemplateData}
      → with_volumes read_file path s hostname onie (volumes_of s) ≡ ok d
      → (volumes : Dict Text) × (volumes_of s ≡ ok volumes)
        × (with_kubeconfig read_file path s hostname onie volumes
              (kubeconfig_loop read_file path s.spec.containers [])
            ≡ ok d)
  unfolding with_volumes
  volumes-Describes s hostname onie {d} h = elim (Result-cases (volumes_of s)) [
    | inl (x, e) ↦ absurd (ground arith)
    | inr (volumes, e) ↦ (volumes, e, ground arith)
  ]

  onie-Describes :
      (s : Switch) (hostname : Text) {d : TemplateData}
      → with_onie read_file path s hostname (configures_onie s.spec.next_boot_mode) ≡ ok d
      → (onie : Bool) × (configures_onie s.spec.next_boot_mode ≡ ok onie)
        × (with_volumes read_file path s hostname onie (volumes_of s) ≡ ok d)
  unfolding with_onie
  onie-Describes s hostname {d} h = elim (Result-cases (configures_onie s.spec.next_boot_mode)) [
    | inl (x, e) ↦ absurd (ground arith)
    | inr (onie, e) ↦ (onie, e, ground arith)
  ]

  abbrev hostname_of : Switch → Text
  hostname_of s = if is_empty s.spec.hostname then s.name else s.spec.hostname

  host_tested :
      (s : Switch) {d : TemplateData}
      → build_template_data read_file path s ≡ ok d
      → (is_empty (hostname_of s) ≡ false)
        × (with_onie read_file path s (hostname_of s) (configures_onie s.spec.next_boot_mode)
            ≡ ok d)
  unfolding build_template_data
  host_tested s h = (ground arith, ground arith)

  -- The data built for a switch have its name and a host name that is not empty, ask for ONIE as its
  -- boot mode says, and have an entry for each of its containers, in their order: with the name,
  -- image, host process namespace, privileges, words and arguments declared, the mounts that
  -- are checked for it, the user and group that its security context asks for, the flag of the control kubeconfig with the path for it and the message
  -- that names the container. If one gets the control kubeconfig, the file of it was read and the
  -- data have its base64, and the container runs as an explicit user.
  pub build_template_data-Describes :
      (s : Switch) {d : TemplateData}
      → build_template_data read_file path s ≡ ok d
      → Describes read_file path s d
  build_template_data-Describes s {d} h =
      let (given, h₁) = host_tested s {d = d} h in
      let (onie, chosen, h₂) = onie-Describes s (hostname_of s) {d = d} h₁ in
      let (volumes, mapped, h₃) = volumes-Describes s (hostname_of s) onie {d = d} h₂ in
      let (name, host, same_onie, kubeconfig, read, run) =
        kubeconfig-Describes s (hostname_of s) onie volumes
          (kubeconfig_loop read_file path s.spec.containers []) {d = d} h₃ in
      record {
        switch = name;
        host = host;
        host_given = rw host given;
        onie = rw same_onie chosen;
        volumes = volumes;
        mapped = mapped;
        kubeconfig = kubeconfig;
        read = injected-IsFile read_file path s.spec.containers {r = kubeconfig} read;
        all_run = run;
      }
