-- ===== src/Commands/Tests.antt =====
-- cmd: a cluster of two nodes, a small configuration, and a client whose connection ends.
use ion_cluster.Base.{
  ℕ, ◌++◌, text_discrete, false, true, ◌≡◌, ◌≢◌, ◌⊎◌, arith, refl, String, some, none, List, [],
  ◌∷◌, All, split_at, is_empty, if◌then◌else◌,
}
use ion_cluster.Commands.Addresses.{endpoint-listening}
use ion_cluster.Config.{endpoint, RootConfig}
use ion_cluster.Coordinator.{ok, err, no_sid}
use ion_cluster.Rpc.{Outcome, done, panics}
use ion_cluster.Client.{Producer, Message, new_client}
use ion_cluster.Client.Signal.{new_jsonrpc_signal_client}
use ion_cluster.Commands.Kube.{
  KubeApi, KubeNode, internal_ip, external_ip, kube_configure_external_ip,
}
use ion_cluster.Commands.Kube.Choosing.{Passes, IsLastOf, kube_configure_external_ip-chooses}
use ion_cluster.Commands.Envs.{
  Struct, no_field, field, other_kind, Leads, HasPlainNames, Binds, bind_config_envs, join_parts,
  bind_config_envs-Leads,
}
use ion_cluster.Commands.Setup.{root_struct, ViperApi, exits, configured, init_config}
use ion_cluster.Commands.Serving.{fails, runs, listens, listens_tls, listening, server_main}
use ion_cluster.Shutdown.{serving, serve}
use ion_cluster.Commands.Clients.{Flags, Event as ClientEvent, client_thread}
use ion_cluster.Commands.Looping.{Stands, client_thread-Stands}
use ion_cluster.Samples.{pcs, rpc, auth}

abbrev conf : RootConfig (List String)
conf = record {
  signal = record {
    fqdn = "10.0.0.2";
    key = "";
    cert = "";
    http_addr = ":7000";
    grpc_addr = "";
    auth = auth;
  };
  sfu = [];
  coordinator = record { local = none; etcd = none };
}

abbrev nodes : List KubeNode
nodes =
    (record { kind = internal_ip; address = "10.0.0.1" } ∷ [])
    ∷ (record { kind = external_ip; address = "5.5.5.5" }
        ∷ record { kind = internal_ip; address = "10.0.0.2" }
        ∷ [])
    ∷ []

abbrev kube : KubeApi (List String)
kube = record {
  Config = Unit {0};
  Clientset = Unit {0};
  in_cluster_config = ok tt;
  new_for_config = λ cfg. ok tt;
  list_nodes = λ clientset. nodes;
  set_nat_1to1_ips = λ ips sfu. ips;
}

kube_configure_external_ip-chooses_example :
    (All (Passes "10.0.0.2") nodes × (kube_configure_external_ip kube conf ≡ conf))
    ⊎ ((ip : String) × IsLastOf "10.0.0.2" nodes ip
        × (kube_configure_external_ip kube conf
            ≡ (if is_empty ip then conf else record conf { sfu = ip ∷ [] })))
kube_configure_external_ip-chooses_example =
    kube_configure_external_ip-chooses kube conf tt tt refl refl

abbrev sfu : Struct
sfu = field "Ballast" (some "ballast") other_kind no_field

sfu_plain : HasPlainNames sfu
unfolding HasPlainNames
sfu_plain = ground arith

bind_config_envs-Leads_example :
    ((key : String) → Binds (bind_config_envs sfu []) key → Leads sfu (split_at "." key))
    × ((path : List String)
        → Leads sfu path
        → Binds (bind_config_envs sfu []) (join_parts path)
          × (split_at "." (join_parts path) ≡ path))
bind_config_envs-Leads_example = bind_config_envs-Leads sfu sfu_plain

abbrev flags : Flags
flags = record { url = "ws://n1:7000"; sid = "room"; token = ""; save_path = ""; stream_url = "" }

abbrev producer : String → String → Outcome (Producer pcs)
producer kind path = done (record { video_track = "v"; audio_track = "a" })

producer_fine : (kind path : String) → producer kind path ≢ panics
producer_fine kind path e = cc

abbrev received : List (Message pcs)
received = Message.trickle_publisher "c1" ∷ []

abbrev events : List ClientEvent
events = ClientEvent.ticks ∷ ClientEvent.signals ∷ ClientEvent.closes ∷ []

client_thread-Stands_example :
    Stands {R = rpc} "room"
      (new_client new_jsonrpc_signal_client (ok (none, [])) (ok (none, [])))
      events
      (client_thread flags producer (ok (none, [])) (ok (none, [])) ("test" ∷ []) received events)
client_thread-Stands_example =
    client_thread-Stands flags producer (ok (none, [])) (ok (none, [])) ("test" ∷ []) received
      events producer_fine

-- With authentication and TLS off, a node listens on its address; a TURN server that does not start
-- ends the command with the server up.
starts_plain :
    (server_main conf.signal (ok tt) false (ok tt) [] ≡ runs (some (listens ":7000")) serving)
    × (server_main conf.signal (ok tt) true (err no_sid) [] ≡ fails no_sid (some (listens ":7000")))
unfolding server_main serve text_discrete
starts_plain = (refl, refl)

endpoint-listening_example :
    ((conf.signal.key ≢ "")
      × (conf.signal.cert ≢ "")
      × (endpoint conf ≡ some "wss://10.0.0.2:7000/ws")
      × (listening conf.signal ≡ listens_tls ":7000" "" ""))
    ⊎ (((conf.signal.key ≡ "") ⊎ (conf.signal.cert ≡ ""))
        × (endpoint conf ≡ some "ws://10.0.0.2:7000/ws")
        × (listening conf.signal ≡ listens ":7000"))
endpoint-listening_example =
    endpoint-listening conf "" "7000" tt (refl, (refl, (refl, (refl, tt)))) refl

-- The state of viper is the log of the keys that are bound.
abbrev viper : List ℕ → ViperApi (List String)
viper range = record {
  State = List String;
  home_dir = err no_sid;
  set_config_file = λ file v. v;
  set_config_type = λ kind v. v;
  add_config_path = λ path v. v;
  set_config_name = λ name v. v;
  read_in_config = λ v. v;
  set_env_prefix = λ prefix v. v;
  set_env_key_replacer = λ old new v. v;
  bind_env = λ key v. v ++ key ∷ [];
  unmarshal = λ v c. ok (record c { sfu = v });
  sfu_struct = sfu;
  ice_port_range = λ f. range;
}

-- Without a home directory, and with three ports, the program exits; else the cluster's address is set.
sets_up :
    (init_config (viper []) kube "" [] conf ≡ exits 1)
    × (init_config (viper (1 ∷ 2 ∷ 3 ∷ [])) kube "config.toml" [] conf ≡ exits 1)
    × (init_config (viper (1 ∷ 2 ∷ [])) kube "config.toml" [] conf
        ≡ configured (record conf { sfu = "5.5.5.5" ∷ [] }))
unfolding init_config kube_configure_external_ip bind_config_envs text_discrete
sets_up = (refl, refl, refl)

binds :
    bind_config_envs (root_struct sfu) []
    ≡ "signal.fqdn" ∷ "signal.key" ∷ "signal.cert" ∷ "signal.httpaddr" ∷ "signal.grpcaddr"
      ∷ "signal.auth.enabled" ∷ "signal.auth.key" ∷ "signal.auth.keytype" ∷ "sfu.ballast"
      ∷ "coordinator.local" ∷ "coordinator.etcd" ∷ []
unfolding bind_config_envs
binds = refl
