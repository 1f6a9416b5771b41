-- ===== src/Commands/Setup.antt =====
-- cmd/root.go: the reading of the configuration before a command runs.
use ion_cluster.Base.{
  ℕ, ◌≡◌, String, Option, none, some, List, [], ◌∷◌, length, ltb, is_empty, split_at, arith,
  if◌then◌else◌,
}
use ion_cluster.Coordinator.{Result, ok, err}
use ion_cluster.Config.{RootConfig}
use ion_cluster.Commands.Kube.{KubeApi, kube_configure_external_ip}
use ion_cluster.Commands.Envs.{
  other_kind, struct_kind, Struct, no_field, field, bind_config_envs, HasPlainNames, Leads, ends,
  inside, later, Binds, bind_config_envs-Leads,
}

-- The struct types of pkg/config.go; `sfu` is the SFU's own. A pointer is no struct.
abbrev pub auth_struct : Struct
auth_struct =
    field "Enabled" none other_kind
      (field "Key" none other_kind (field "KeyType" none other_kind no_field))

abbrev pub signal_struct : Struct
signal_struct = field "FQDN" none other_kind (
    field "Key" none other_kind (
      field "Cert" none other_kind (
        field "HTTPAddr" none other_kind (
          field "GRPCAddr" none other_kind
            (field "Auth" none (struct_kind auth_struct) no_field)))))

abbrev pub coordinator_struct : Struct
coordinator_struct = field "Local" none other_kind (field "Etcd" none other_kind no_field)

abbrev pub root_struct : Struct → Struct
root_struct sfu = field "Signal" none (struct_kind signal_struct) (
    field "SFU" none (struct_kind sfu)
      (field "Coordinator" none (struct_kind coordinator_struct) no_field))

-- What the function calls of viper and homedir, and what it reads of the SFU's configuration.
pub record ViperApi (F : Type 0) : Type 1 where
  pub State : Type 0
  pub home_dir : Result String
  pub set_config_file : String → State → State
  pub set_config_type : String → State → State
  pub add_config_path : String → State → State
  pub set_config_name : String → State → State
  pub read_in_config : State → State
  pub set_env_prefix : String → State → State
  pub set_env_key_replacer : String → String → State → State
  pub bind_env : String → State → State
  pub unmarshal : State → RootConfig F → Result (RootConfig F)
  pub sfu_struct : Struct
  pub ice_port_range : F → List ℕ

-- How the function ends.
pub data Setup (F : Type 0) : Type 0 where
  exits : ℕ → Setup F
  configured : RootConfig F → Setup F

module _ {F : Type 0} (V : ViperApi F) (K : KubeApi F) where
  abbrev pub bind_all : List String → V.State → V.State
  bind_all [] v = v
  bind_all (key ∷ keys) v = bind_all keys (V.bind_env key v)

  -- Where the configuration is looked for; without a home directory the program exits.
  abbrev pub choose_file : String → V.State → Option V.State
  choose_file cfg_file v =
      if is_empty cfg_file
      then (elim V.home_dir [
        | err _ ↦ none
        | ok home ↦ some (V.set_config_name ".ioncluster" (V.add_config_path home v))
      ])
      else some (V.set_config_type "toml" (V.set_config_file cfg_file v))

  abbrev pub read_all : V.State → V.State
  read_all v =
      bind_all (bind_config_envs (root_struct V.sfu_struct) [])
        (V.set_env_key_replacer "." "_" (V.set_env_prefix "ION" (V.read_in_config v)))

  -- The test of the port range and what follows it.
  abbrev pub check_ports : RootConfig F → Setup F
  check_ports conf =
      if ltb 2 (length (V.ice_port_range conf.sfu))
      then exits 1
      else configured (kube_configure_external_ip K conf)

  -- `initConfig`
  unfoldable pub init_config : String → V.State → RootConfig F → Setup F
  init_config cfg_file v conf = elim (choose_file cfg_file v) [
    | none ↦ exits 1
    | some v' ↦ elim (V.unmarshal (read_all v') conf) [
      | err _ ↦ exits 1
      | ok conf' ↦ check_ports conf'
    ]
  ]

root-plain : (sfu : Struct) → HasPlainNames sfu → HasPlainNames (root_struct sfu)
unfolding HasPlainNames
root-plain sfu h = ground arith

below_leaf :
    (section name : String) (path names : List String)
    → names ≡ section ∷ name ∷ path
    → Leads coordinator_struct names
    → ⊥
below_leaf section name path _ e (ends _ _ _) = cc
below_leaf section name path _ e (later _ _ _ _ _ (ends _ _ _)) = cc
below_leaf section name path names e (later _ _ _ _ _ (later _ _ _ _ _ h)) = elim h [ ]

Leads-nowhere :
    (sfu : Struct) (section name : String) (path names : List String)
    → names ≡ "coordinator" ∷ section ∷ name ∷ path
    → Leads (root_struct sfu) names
    → ⊥
Leads-nowhere sfu section name path _ e (inside _ _ _ _ _ h) = cc
Leads-nowhere sfu section name path _ e (later _ _ _ _ _ (inside _ _ _ _ _ h)) = cc
Leads-nowhere sfu section name path _ e (later _ _ _ _ _ (later _ _ _ _ _ (inside _ _ _ _ p h))) =
    below_leaf section name path p (ground (arith, e)) h
Leads-nowhere sfu section name path names e
      (later _ _ _ _ _ (later _ _ _ _ _ (later _ _ _ _ _ h))) =
    elim h [ ]

-- No field of the sections of the coordinator can be set by a variable: whatever the SFU's configuration
-- has, as long as there is no dot in its names, no key is bound that leads below `coordinator.etcd` or
-- `coordinator.local`.
pub coordinator-unbound :
    (sfu : Struct) (section name : String) (path : List String) (key : String)
    → HasPlainNames sfu
    → split_at "." key ≡ "coordinator" ∷ section ∷ name ∷ path
    → ¬ Binds (bind_config_envs (root_struct sfu) []) key
coordinator-unbound sfu section name path key plain parts bound =
    Leads-nowhere sfu section name path _ parts
      ((bind_config_envs-Leads (root_struct sfu) (root-plain sfu plain)).0 key bound)
