-- ===== src/Commands/Flags.antt =====
-- The `init` functions of cmd/root.go, cmd/server.go, cmd/client.go and cmd/composite.go: the flags of the
-- commands, and what they are worth to a server once the configuration is read.
mod Tests
use ion_cluster.Base.{
  ℕ, ◌≡◌, refl, ap, ◌∙◌, String, Bool, Option, none, some, List, [], Option-cases, inl, inr, ltb,
  length, Bool-cases, arith, ◌⊎◌,
}
use ion_cluster.Metrics.{Gauges}
use ion_cluster.Config.{RootConfig, SignalConfig}
use ion_cluster.Coordinator.{Result, Result-cases, ok, err}
use ion_cluster.Shutdown.{Event}
use ion_cluster.Commands.Kube.{KubeApi, kube_configure_external_ip}
use ion_cluster.Commands.Clients.{Flags}
use ion_cluster.Commands.Setup.{
  ViperApi, Setup, exits, configured, init_config, choose_file, read_all, check_ports, root_struct,
}
use ion_cluster.Commands.Envs.{Binds, bind_config_envs}
use ion_cluster.Commands.Viper.{Place, fresh, value_or, ViperLaws}
use ion_cluster.Commands.Viper.Reading.{IsPlaced, worth, setting-worth}
use ion_cluster.Commands.Serving.{Main, server_main}

-- `StringVarP`: the variable has its default until the flag is given.
abbrev pub flag : String → Option String → String
flag default given = value_or default given

-- What the command line gives of the flags of the root command and of `server`.
pub record ServerArgs : Type 0 where
  pub config : Option String
  pub addr : Option String
  pub cert : Option String
  pub key : Option String

-- Those of `client` and of `composite`, which has the last two.
pub record ClientArgs : Type 0 where
  pub url : Option String
  pub sid : Option String
  pub token : Option String
  pub save : Option String
  pub stream : Option String

abbrev pub config_flag : ServerArgs → String
config_flag args = flag "" args.config

abbrev pub server_flags : {F : Type 0} → ServerArgs → RootConfig F → RootConfig F
server_flags args conf = record conf {
  signal = record (conf.signal) {
    http_addr = flag ":7000" args.addr;
    cert = flag "" args.cert;
    key = flag "" args.key;
  };
}

abbrev pub client_flags : ClientArgs → Flags
client_flags args = record {
  url = flag "ws://localhost:7000" args.url;
  sid = flag "test-session" args.sid;
  token = flag "" args.token;
  save_path = "";
  stream_url = "";
}

abbrev pub composite_flags : ClientArgs → Flags
composite_flags args = record (client_flags args) {
  save_path = flag "" args.save;
  stream_url = flag "" args.stream;
}

-- The program with the command `server`: it exits before the command runs, or runs it.
pub data Program : Type 0 where
  stops : ℕ → Program
  serves : Main → Program

Setup-cases :
    {F : Type 0} (x : Setup F)
    → ((n : ℕ) × (x ≡ exits n)) ⊎ ((c : RootConfig F) × (x ≡ configured c))
Setup-cases (exits n) = inl (n, refl)
Setup-cases (configured c) = inr (c, refl)

module _ {F : Type 0} (V : ViperApi F) (K : KubeApi F) where
  -- `conf` is the zero configuration, `new_coordinator` is `NewCoordinator`, and `turn` says of a
  -- configuration whether it enables the TURN server and what its start gives.
  unfoldable pub server_program :
      {C : Type 0}
      → (RootConfig F → Result C)
      → (F → Bool × Result (Unit {0}))
      → ServerArgs
      → V.State
      → RootConfig F
      → List (Event × Gauges)
      → Program
  server_program new_coordinator turn args v conf events =
      elim (init_config V K (config_flag args) v (server_flags args conf)) [
        | exits status ↦ stops status
        | configured conf' ↦ serves (
            server_main conf'.signal (new_coordinator conf') (turn conf'.sfu).0 (turn conf'.sfu).1
              events)
      ]

  -- The settings that decide where the server listens, in the order in which they are looked for: the
  -- variable, the file at a place, the flag, the default.
  pub record IsConfigured (L : ViperLaws V) (args : ServerArgs) (at : Place) (signal : SignalConfig)
      : Type 0 where
    pub addr : signal.http_addr ≡ flag (flag ":7000" args.addr) (worth V K L at "signal.httpaddr")
    pub cert : signal.cert ≡ flag (flag "" args.cert) (worth V K L at "signal.cert")
    pub key : signal.key ≡ flag (flag "" args.key) (worth V K L at "signal.key")

  -- The keys of these settings are bound, whatever the SFU's configuration has.
  Binds-signal :
      let keys = bind_config_envs (root_struct V.sfu_struct) [] in
      Binds keys "signal.httpaddr" × Binds keys "signal.cert" × Binds keys "signal.key"
  unfolding bind_config_envs
  Binds-signal = (inr (inr (inr (inl refl))), inr (inr (inl refl)), inr (inl refl))

  kube-signal : (conf : RootConfig F) → (kube_configure_external_ip K conf).signal ≡ conf.signal
  unfolding kube_configure_external_ip
  kube-signal conf = ground arith

  check_ports-signal :
      (conf conf' : RootConfig F)
      → check_ports V K conf ≡ configured conf'
      → conf'.signal ≡ conf.signal
  check_ports-signal conf conf' h = ground (arith, kube-signal conf)

  init_config-IsConfigured :
      (L : ViperLaws V) (args : ServerArgs) (v : V.State) (conf conf' : RootConfig F)
      → L.view v ≡ fresh
      → init_config V K (config_flag args) v (server_flags args conf) ≡ configured conf'
      → (at : Place) × IsPlaced V K L (config_flag args) at × IsConfigured L args at conf'.signal
  unfolding init_config
  init_config-IsConfigured L args v conf conf' new h =
      elim (Option-cases (choose_file V K (config_flag args) v)) [
        | inl missing ↦ absurd (ground arith)
        | inr (w, found) ↦
            elim (Result-cases (V.unmarshal (read_all V K w) (server_flags args conf))) [
              | inl (e, lost) ↦ absurd (ground arith)
              | inr (c, decoded) ↦
                  let same = check_ports-signal c conf' (ground arith) in
                  let (addr, cert, key) =
                    L.unmarshal_signal (read_all V K w) (server_flags args conf) c decoded in
                  let (at, placed, worths) = setting-worth V K L (config_flag args) v w new found in
                  let (b_addr, b_cert, b_key) = Binds-signal in
                  (
                    at,
                    placed,
                    record {
                      addr =
                          ap (λ s. s.http_addr) same
                          ∙ addr
                          ∙ ap (flag (flag ":7000" args.addr)) (worths "signal.httpaddr" b_addr);
                      cert =
                          ap (λ s. s.cert) same
                          ∙ cert
                          ∙ ap (flag (flag "" args.cert)) (worths "signal.cert" b_cert);
                      key =
                          ap (λ s. s.key) same
                          ∙ key
                          ∙ ap (flag (flag "" args.key)) (worths "signal.key" b_key);
                    },
                  )
            ]
      ]

  -- When the program gets to run the server command, with a viper that nothing has been told before, it
  -- runs it with a configuration whose address, certificate and key are each the value of its variable
  -- with the prefix ION, where there is one, else its value in the file of the flag --config or else in
  -- the home directory's .ioncluster, where there is one, else that of its flag, else the default: a
  -- flag does not count against the file.
  pub server_program-IsConfigured :
      {C : Type 0} (L : ViperLaws V) (new_coordinator : RootConfig F → Result C)
      (turn : F → Bool × Result (Unit {0})) (args : ServerArgs) (v : V.State) (conf : RootConfig F)
      (events : List (Event × Gauges)) (m : Main)
      → L.view v ≡ fresh
      → server_program new_coordinator turn args v conf events ≡ serves m
      → (at : Place) × (c : RootConfig F) × IsPlaced V K L (config_flag args) at
        × IsConfigured L args at c.signal
        × (m ≡ server_main c.signal (new_coordinator c) (turn c.sfu).0 (turn c.sfu).1 events)
  unfolding server_program
  server_program-IsConfigured L new_coordinator turn args v conf events m new h =
      elim (Setup-cases (init_config V K (config_flag args) v (server_flags args conf))) [
        | inl (status, stopped) ↦ absurd (ground arith)
        | inr (c, set) ↦
            let (at, placed, settings) = init_config-IsConfigured L args v conf c new set in
            (at, c, placed, settings, ground arith)
      ]
