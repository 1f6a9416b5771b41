-- ===== src/Commands/Flags/Tests.antt =====
-- cmd: a server command with the flag --addr, and a file that names another address.
use ion_cluster.Base.{
  ◌≡◌, refl, String, Bool, false, none, some, [], ◌∷◌, ◌++◌, Option, lookup, insert, sprintf,
  text_discrete, arith,
}
use ion_cluster.Config.{RootConfig}
use ion_cluster.Coordinator.{Result, ok, err, no_sid}
use ion_cluster.Shutdown.{serve}
use ion_cluster.Commands.Envs.{no_field, bind_config_envs}
use ion_cluster.Commands.Kube.{KubeApi, kube_configure_external_ip}
use ion_cluster.Commands.Setup.{ViperApi, init_config}
use ion_cluster.Commands.Viper.{
  Place, file_at, found_in, View, fresh, place, contents, setting, ViperLaws,
}
use ion_cluster.Commands.Viper.Reading.{IsPlaced}
use ion_cluster.Commands.Serving.{runs, listens_tls, Main, server_main}
use ion_cluster.Commands.Flags.{
  ServerArgs, flag, config_flag, serves, server_program, IsConfigured, server_program-IsConfigured,
}
use ion_cluster.Shutdown.{serving}
use ion_cluster.Samples.{auth}

-- The file in the home directory names an address and a certificate; a variable names a key.
abbrev in_home : String → Option String
in_home key = lookup key (("signal.httpaddr", ":9000") ∷ ("signal.cert", "file.pem") ∷ [])

abbrev files : Place → Option (String → Option String)
files (file_at path kind) = none
files (found_in paths name) = some in_home

abbrev environment : (prefix old new key : String) → Option String
environment prefix old new key =
    lookup (sprintf (prefix ∷ " " ∷ key ∷ [])) (("ION signal.key", "variable.pem") ∷ [])

-- A viper that is what it has been told.
abbrev viper : ViperApi (Unit {0})
viper = record {
  State = View;
  home_dir = ok "/root";
  set_config_file = λ path v. record v { file = some path };
  set_config_type = λ kind v. record v { kind = kind };
  add_config_path = λ path v. record v { paths = v.paths ++ path ∷ [] };
  set_config_name = λ name v. record v { name = name; file = none };
  read_in_config = λ v. record v { loaded = contents (files (place v)) v.loaded };
  set_env_prefix = λ prefix v. record v { prefix = prefix };
  set_env_key_replacer = λ old new v. record v { old = old; new = new };
  bind_env = λ key v. record v { bound = insert key v.prefix v.bound };
  unmarshal = λ v c. ok (record c {
    signal = record (c.signal) {
      http_addr = flag c.signal.http_addr (setting environment v "signal.httpaddr");
      cert = flag c.signal.cert (setting environment v "signal.cert");
      key = flag c.signal.key (setting environment v "signal.key");
    };
  });
  sfu_struct = no_field;
  ice_port_range = λ f. [];
}

laws : ViperLaws viper
laws = record {
  view = λ v. v;
  files = files;
  environment = environment;
  view-set_config_file = λ path v given. refl;
  view-set_config_type = λ kind v. refl;
  view-add_config_path = λ path v. refl;
  view-set_config_name = λ name v. refl;
  view-read_in_config = λ v. refl;
  view-set_env_prefix = λ prefix v. refl;
  view-set_env_key_replacer = λ old new v. refl;
  view-bind_env = λ key v. refl;
  unmarshal_signal = λ v c c' h. ground arith;
}

-- Nothing has been told to viper yet.
told_nothing : laws.view fresh ≡ fresh
unfolding laws
told_nothing = refl

abbrev kube : KubeApi (Unit {0})
kube = record {
  Config = Unit {0};
  Clientset = Unit {0};
  in_cluster_config = err no_sid;
  new_for_config = λ cfg. err no_sid;
  list_nodes = λ clientset. [];
  set_nat_1to1_ips = λ ips sfu. sfu;
}

abbrev zero_conf : RootConfig (Unit {0})
zero_conf = record {
  signal = record { fqdn = ""; key = ""; cert = ""; http_addr = ""; grpc_addr = ""; auth = auth };
  sfu = tt;
  coordinator = record { local = none; etcd = none };
}

abbrev args : ServerArgs
args = record { config = none; addr = some ":8000"; cert = none; key = none }

abbrev coordinator : RootConfig (Unit {0}) → Result (Unit {0})
coordinator c = ok tt

abbrev turn : Unit {0} → Bool × Result (Unit {0})
turn f = (false, ok tt)

-- The server listens on the address of the file, with the certificate of the file and the key of the
-- variable.
abbrev listening_main : Main
listening_main = runs (some (listens_tls ":9000" "file.pem" "variable.pem")) serving

program_runs :
    server_program viper kube coordinator turn args fresh zero_conf [] ≡ serves listening_main
unfolding server_program init_config server_main serve kube_configure_external_ip bind_config_envs
    text_discrete
program_runs = refl

server_program-IsConfigured_example :
    (at : Place) × (c : RootConfig (Unit {0})) × IsPlaced viper kube laws (config_flag args) at
    × IsConfigured viper kube laws args at c.signal
    × (listening_main ≡ server_main c.signal (coordinator c) (turn c.sfu).0 (turn c.sfu).1 [])
server_program-IsConfigured_example =
    server_program-IsConfigured viper kube laws coordinator turn args fresh zero_conf []
      listening_main told_nothing program_runs
