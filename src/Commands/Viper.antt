-- ===== src/Commands/Viper.antt =====
-- cmd/root.go: what the reading of the configuration relies on of viper, as far as it decides where a
-- server listens.
pub mod Reading
use mathlib.Core.Option.{some-injective}
use ion_cluster.Base.{
  if◌then◌else◌, ◌≡◌, refl, ap, sym, ◌∙◌, ◌⊎◌, inl, inr, String, Bool, true, false, Option, none,
  some, List, [], ◌∷◌, ◌++◌, Map, lookup, insert, lookup-insert, is_empty, arith,
}
use ion_cluster.Config.{RootConfig}
use ion_cluster.Coordinator.{Result, ok, err}
use ion_cluster.Commands.Envs.{Binds, bind_config_envs}
use ion_cluster.Commands.Kube.{KubeApi}
use ion_cluster.Commands.Setup.{ViperApi, bind_all, choose_file, read_all, root_struct}

-- The first value there is, or else a default.
abbrev pub value_or : String → Option String → String
value_or default none = default
value_or default (some text) = text

abbrev pub first_of : Option String → Option String → Option String
first_of none second = second
first_of (some text) second = some text

-- Where the configuration file is: at a path, with its type, or in one of some folders, under a name.
pub data Place : Type 0 where
  file_at : String → String → Place
  found_in : List String → String → Place

-- What viper has been told, and the values of the file that it has read. `bound` has the keys bound to
-- variables, with the prefix at the time.
pub record View : Type 0 where
  pub file : Option String
  pub kind : String
  pub paths : List String
  pub name : String
  pub loaded : String → Option String
  pub prefix : String
  pub old : String
  pub new : String
  pub bound : Map String

abbrev pub fresh : View
fresh = record {
  file = none;
  kind = "";
  paths = [];
  name = "";
  loaded = λ key. none;
  prefix = "";
  old = "";
  new = "";
  bound = [];
}

abbrev pub place : View → Place
place x = elim x.file [ some path ↦ file_at path x.kind | none ↦ found_in x.paths x.name ]

-- A file that cannot be read leaves the values as they are.
abbrev pub contents :
    Option (String → Option String) → (String → Option String) → String → Option String
contents none before = before
contents (some values) before = values

-- `environment prefix old new key` is the value of the variable that viper makes of a key, if it has
-- one.
abbrev pub setting :
    (String → String → String → String → Option String) → View → String → Option String
setting environment x key =
    first_of
      (elim (lookup key x.bound) [ none ↦ none | some prefix ↦ environment prefix x.old x.new key ])
      (x.loaded key)

-- Each call sets what its name says. `files` has the values of the files that can be read. A field is
-- decoded from the variable that its key is bound to, else from the file, and stays if neither has a
-- value.
pub record ViperLaws {F : Type 0} (V : ViperApi F) : Type 1 where
  pub view : V.State → View
  pub files : Place → Option (String → Option String)
  pub environment : (prefix old new key : String) → Option String
  pub view-set_config_file :
      (path : String) (v : V.State)
      → is_empty path ≡ false
      → view (V.set_config_file path v) ≡ record (view v) { file = some path }
  pub view-set_config_type :
      (kind : String) (v : V.State)
      → view (V.set_config_type kind v) ≡ record (view v) { kind = kind }
  pub view-add_config_path :
      (path : String) (v : V.State)
      → view (V.add_config_path path v)
        ≡ (let x : View = view v in record x { paths = x.paths ++ path ∷ [] })
  pub view-set_config_name :
      (name : String) (v : V.State)
      → view (V.set_config_name name v) ≡ record (view v) { name = name; file = none }
  pub view-read_in_config :
      (v : V.State)
      → view (V.read_in_config v)
        ≡ (let x : View = view v in record x { loaded = contents (files (place x)) x.loaded })
  pub view-set_env_prefix :
      (prefix : String) (v : V.State)
      → view (V.set_env_prefix prefix v) ≡ record (view v) { prefix = prefix }
  pub view-set_env_key_replacer :
      (old new : String) (v : V.State)
      → view (V.set_env_key_replacer old new v) ≡ record (view v) { old = old; new = new }
  pub view-bind_env :
      (key : String) (v : V.State)
      → view (V.bind_env key v)
        ≡ (let x : View = view v in record x { bound = insert key x.prefix x.bound })
  pub unmarshal_signal :
      (v : V.State) (conf conf' : RootConfig F)
      → V.unmarshal v conf ≡ ok conf'
      → (let value : String → Option String = setting environment (view v) in
          (conf'.signal.http_addr ≡ value_or conf.signal.http_addr (value "signal.httpaddr"))
          × (conf'.signal.cert ≡ value_or conf.signal.cert (value "signal.cert"))
          × (conf'.signal.key ≡ value_or conf.signal.key (value "signal.key")))
