-- ===== src/Config.antt =====
-- pkg/config.go: the configuration, the endpoint that a node gives out, and the choice of a
-- coordinator in pkg/coordinator.go.
pub mod Endpoints
mod Tests
use Prim.Native.String.{◌++◌}
use ion_cluster.Base.{
  String, Bool, Option, none, some, List, [], ◌∷◌, split_at, is_empty, not, ◌&&◌, if◌then◌else◌,
}

pub record AuthConfig : Type 0 where
  pub enabled : Bool
  pub key : String
  pub key_type : String

pub record SignalConfig : Type 0 where
  pub fqdn : String
  pub key : String
  pub cert : String
  pub http_addr : String
  pub grpc_addr : String
  pub auth : AuthConfig

pub record LocalConfig : Type 0 where
  pub enabled : Bool

pub record EtcdConfig : Type 0 where
  pub enabled : Bool
  pub hosts : List String

-- A section that the configuration file lacks is a nil pointer.
pub record CoordinatorConfig : Type 0 where
  pub local : Option LocalConfig
  pub etcd : Option EtcdConfig

-- `F` stands for the SFU's own configuration.
pub record RootConfig (F : Type 0) : Type 0 where
  pub signal : SignalConfig
  pub sfu : F
  pub coordinator : CoordinatorConfig

-- `strings.Split(addr, ":")[1]`, which panics where there is no such part.
abbrev second_part : List String → Option String
second_part [] = none
second_part (_ ∷ []) = none
second_part (_ ∷ port ∷ _) = some port

-- The scheme depends on whether both TLS files are named.
abbrev pub uses_tls : SignalConfig → Bool
uses_tls c = not (is_empty c.key) && not (is_empty c.cert)

abbrev pub endpoint_at : SignalConfig → String → String
endpoint_at c port =
    if uses_tls c
    then "wss://" ++ (c.fqdn ++ (":" ++ (port ++ "/ws")))
    else "ws://" ++ (c.fqdn ++ (":" ++ (port ++ "/ws")))

abbrev pub endpoint_of_parts : SignalConfig → List String → Option String
endpoint_of_parts c parts = elim (second_part parts) [
  | none ↦ none
  | some port ↦ some (endpoint_at c port)
]

-- `Endpoint`; `none` is the panic.
unfoldable pub endpoint : {F : Type 0} → RootConfig F → Option String
endpoint c = endpoint_of_parts c.signal (split_at ":" c.signal.http_addr)

pub data Choice : Type 0 where
  use_etcd : List String → Choice
  use_local : Choice
  none_configured : Choice

-- `NewCoordinator`: the sections alone decide, not their `enabled`.
unfoldable pub choose_coordinator : CoordinatorConfig → Choice
choose_coordinator c = elim c.etcd [
  | some e ↦ use_etcd e.hosts
  | none ↦ elim c.local [ some _ ↦ use_local | none ↦ none_configured ]
]
