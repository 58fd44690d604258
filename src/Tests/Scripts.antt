-- ===== src/Tests/Scripts.antt =====
-- The theorems on ZTP and the generated script, at concrete inputs.
use sonic_operator.Base.{
  ℕ, ◌≡◌, ◌↔◌, refl, Text, codes, text_eq, text_eq_iff, has_prefix, is_empty, true, false, none,
  some, List, [], ◌∷◌, ◌++◌, Error, errorf, Result, ok, err, arith, lookup, insert, Dict, All,
  strip,
}
use sonic_operator.Base.Int.{pos}
use sonic_operator.Strconv.{itoa}
use sonic_operator.Strconv.{itoa}
use sonic_operator.Api.{Switch, Volume, Container, next_boot_mode_none, next_boot_mode_install_os}
use sonic_operator.Ztp.Volumes.{
  host_path_volumes, container_volume_mounts, check_mount, check_volume, bind_mount,
  container_docker_user, runs_as_user,
}
use sonic_operator.Ztp.Volumes.Valid.{Valid, Distinct, host_path_volumes_accepts}
use sonic_operator.Ztp.Volumes.Mounts.{AreBindsOf, DistinctPaths, container_volume_mounts_accepts}
use sonic_operator.Ztp.Build.{
  build_template_data, describe, TemplateData, base64, configures_onie, volumes_of, kubeconfig_loop,
  containers_loop, build_container,
}
use sonic_operator.Ztp.Build.Containers.{Describes, build_template_data-Describes}
use sonic_operator.Ztp.Match.{matching_switch, source_matches}
use sonic_operator.Ztp.Match.Unique.{OneMatch, matching_switch_unique}
use sonic_operator.Ztp.Quote.{shell_quote, quoted_args, read_word, plain}
use sonic_operator.Ztp.Quote.Words.{read_words, read_word-shell_quote, read_words-quoted_args}

read_word-shell_quote_example :
    read_word plain [] (shell_quote (codes "it's") ++ codes " x") ≡ some (codes "it's", codes " x")
read_word-shell_quote_example =
    read_word-shell_quote (codes "it's") (codes " x") (unfold codes in refl)

read_words-quoted_args_example :
    read_words 3 (quoted_args (codes "--name" ∷ codes "a b" ∷ []) ++ b'\n' ∷ codes "exit")
    ≡ some (codes "--name" ∷ codes "a b" ∷ [])
read_words-quoted_args_example =
    read_words-quoted_args (codes "--name" ∷ codes "a b" ∷ []) 3 (codes "exit") (omega arith)

-- A switch, with its ZTP source address.
abbrev switch_at : Text → Text → Switch
switch_at name address = record {
  name = name;
  namespace = codes "default";
  uid = [];
  deleting = false;
  finalizers = [];
  spec = record {
    hostname = [];
    management = record { host = address; port = codes "57400" };
    ztp = some (record { source_address = address; script_ref = none });
    containers = [];
    volumes = [];
    next_boot_mode = [];
    mac_address = [];
    ports = [];
  };
  status = record { state = []; ports = []; mac_address = []; firmware_version = []; sku = [] };
}

abbrev two_switches : List Switch
two_switches =
    switch_at (codes "leaf") (codes "10.0.0.1") ∷ switch_at (codes "spine") (codes "10.0.0.2") ∷ []

-- Addresses as their texts, of which the empty one is no address.
abbrev parse_text : Text → Result Error Text
parse_text [] = err (errorf "unable to parse IP" [])
parse_text (c ∷ s) = ok (c ∷ s)

abbrev show_text : Text → Text
show_text a = a

matching_switch_unique_example :
    (matching_switch parse_text text_eq show_text (ok (codes "10.0.0.2")) (ok two_switches)
      ≡ ok (switch_at (codes "spine") (codes "10.0.0.2")))
    ↔ OneMatch parse_text text_eq show_text
        (codes "10.0.0.2")
        two_switches
        (switch_at (codes "spine") (codes "10.0.0.2"))
matching_switch_unique_example =
    matching_switch_unique parse_text text_eq show_text text_eq_iff (codes "10.0.0.2") two_switches
      (switch_at (codes "spine") (codes "10.0.0.2"))

-- The second of the switches is found.
spine_found :
    matching_switch parse_text text_eq show_text (ok (codes "10.0.0.2")) (ok two_switches)
    ≡ ok (switch_at (codes "spine") (codes "10.0.0.2"))
unfolding matching_switch codes text_eq source_matches
spine_found = refl

abbrev data_volume : Volume
data_volume = record { name = codes "data"; host_path = some (codes "/var/data") }

host_path_volumes_accepts_example :
    ((m : Dict Text) × (host_path_volumes (data_volume ∷ []) ≡ ok m))
    ↔ (All Valid (data_volume ∷ []) × Distinct (data_volume ∷ []))
host_path_volumes_accepts_example = host_path_volumes_accepts (data_volume ∷ [])

abbrev data_map : Dict Text
data_map = (codes "data", codes "/var/data") ∷ []

data_mapped : host_path_volumes (data_volume ∷ []) ≡ ok data_map
unfolding host_path_volumes check_volume is_empty codes lookup has_prefix insert
data_mapped = refl

abbrev agent : Container
agent = record {
  name = codes "agent";
  image = codes "agent:1";
  command = codes "/agent" ∷ codes "-v" ∷ [];
  args = [];
  volume_mounts = record { name = codes "data"; mount_path = codes "/data"; read_only = true } ∷ [];
  host_pid = false;
  security_context =
      some (record { privileged = true; run_as_user = some (pos 0); run_as_group = none });
  inject_control_kubeconfig = true;
}

container_volume_mounts_accepts_example :
    (container_volume_mounts agent data_map ≡ ok (codes "/var/data:/data:ro" ∷ [])) ↔ (
      AreBindsOf data_map agent.volume_mounts (codes "/var/data:/data:ro" ∷ [])
      × DistinctPaths agent.volume_mounts)
container_volume_mounts_accepts_example =
    container_volume_mounts_accepts agent data_map (codes "/var/data:/data:ro" ∷ [])

-- A switch that runs one container.
abbrev leaf : Switch
leaf =
    let s = switch_at (codes "leaf") (codes "10.0.0.1") in
    record s {
      spec = record s.spec {
        containers = agent ∷ [];
        volumes = data_volume ∷ [];
        next_boot_mode = codes "InstallOS";
      };
    }

abbrev read_any : Text → Result Error (List ℕ)
read_any path = ok (codes "key")

abbrev script : Result Error TemplateData
script = build_template_data read_any (codes "/k") leaf

abbrev leaf_data : TemplateData
leaf_data = record {
  switch_name = codes "leaf";
  hostname = codes "leaf";
  configure_onie = true;
  containers = describe agent (codes "0") (codes "/var/data:/data:ro" ∷ []) (codes "a2V5") ∷ [];
}

leaf_built : script ≡ ok leaf_data
unfolding build_template_data is_empty codes configures_onie text_eq next_boot_mode_none
    next_boot_mode_install_os volumes_of host_path_volumes check_volume lookup has_prefix
    kubeconfig_loop containers_loop build_container container_docker_user container_volume_mounts
    check_mount strip insert itoa base64 describe bind_mount runs_as_user
leaf_built = refl

build_template_data-Describes_example : Describes read_any (codes "/k") leaf leaf_data
build_template_data-Describes_example =
    build_template_data-Describes read_any (codes "/k") leaf leaf_built
