-- ===== src/Commands/Viper/Reading.antt =====
-- cmd/root.go: what `initConfig` has read of a key, by what viper has been told.
use mathlib.Core.Option.{some-injective}
use ion_cluster.Base.{
  if◌then◌else◌, ◌≡◌, refl, ap, sym, ◌∙◌, ◌⊎◌, inl, inr, String, Bool, true, false, Option, none,
  some, List, [], ◌∷◌, ◌++◌, Map, lookup, insert, lookup-insert, is_empty, arith,
}
use ion_cluster.Coordinator.{Result, ok, err}
use ion_cluster.Commands.Envs.{Binds, bind_config_envs}
use ion_cluster.Commands.Kube.{KubeApi}
use ion_cluster.Commands.Setup.{ViperApi, bind_all, choose_file, read_all, root_struct}
use ion_cluster.Commands.Viper.{
  Place, file_at, found_in, View, fresh, place, contents, first_of, setting, ViperLaws,
}

abbrev bind_map : List String → String → Map String → Map String
bind_map [] prefix bound = bound
bind_map (key ∷ keys) prefix bound = bind_map keys prefix (insert key prefix bound)

lookup-bind_map :
    (key prefix : String) (keys : List String) (bound : Map String)
    → Binds keys key ⊎ (lookup key bound ≡ some prefix)
    → lookup key (bind_map keys prefix bound) ≡ some prefix
lookup-bind_map key prefix [] bound (inl h) = absurd h
lookup-bind_map key prefix [] bound (inr h) = h
lookup-bind_map key prefix (k ∷ keys) bound (inl (inl e)) =
    lookup-bind_map key prefix keys (insert k prefix bound)
      (inr (ground (arith, lookup-insert k key prefix bound)))
lookup-bind_map key prefix (k ∷ keys) bound (inl (inr h)) =
    lookup-bind_map key prefix keys (insert k prefix bound) (inl h)
lookup-bind_map key prefix (k ∷ keys) bound (inr h) =
    lookup-bind_map key prefix keys (insert k prefix bound)
      (inr (ground (arith, lookup-insert k key prefix bound)))

module _ {F : Type 0} (V : ViperApi F) (K : KubeApi F) (L : ViperLaws V) where
  view-bind_all :
      (keys : List String) (v : V.State)
      → L.view (bind_all V K keys v)
        ≡ (let x : View = L.view v in record x { bound = bind_map keys x.prefix x.bound })
  view-bind_all [] v = refl
  view-bind_all (key ∷ keys) v =
      view-bind_all keys (V.bind_env key v)
      ∙ ap (λ (x : View). record x { bound = bind_map keys x.prefix x.bound })
          (L.view-bind_env key v)

  -- The file of the flag, as TOML, or else `.ioncluster` in the home directory.
  abbrev pub IsPlaced : String → Place → Type 0
  IsPlaced cfg_file at =
      ((is_empty cfg_file ≡ false) × (at ≡ file_at cfg_file "toml"))
      ⊎ ((is_empty cfg_file ≡ true)
          × ((home : String) × (V.home_dir ≡ ok home) × (at ≡ found_in (home ∷ []) ".ioncluster")))

  -- What a key is worth: its variable, else its value in the file.
  abbrev pub worth : Place → String → Option String
  worth at key =
      first_of (L.environment "ION" "." "_" key) (contents (L.files at) (λ key. none) key)

  setting-read_all :
      (at : Place) (w : V.State) (key : String)
      → Binds (bind_config_envs (root_struct V.sfu_struct) []) key
      → place (L.view w) ≡ at
      → (L.view w).loaded ≡ (λ key. none)
      → setting L.environment (L.view (read_all V K w)) key ≡ worth at key
  setting-read_all at w key bound found empty =
      let keys : List String = bind_config_envs (root_struct V.sfu_struct) [] in
      let x : View = L.view w in
      let read : View = record x {
        loaded = contents (L.files (place x)) x.loaded;
        prefix = "ION";
        old = ".";
        new = "_";
      } in
      let all : L.view (read_all V K w) ≡ record read { bound = bind_map keys "ION" x.bound } =
        view-bind_all keys
          (V.set_env_key_replacer "." "_" (V.set_env_prefix "ION" (V.read_in_config w)))
        ∙ ap (λ (y : View). record y { bound = bind_map keys y.prefix y.bound })
            (L.view-set_env_key_replacer "." "_" (V.set_env_prefix "ION" (V.read_in_config w))
              ∙ ap (λ (y : View). record y { old = "."; new = "_" })
                  (L.view-set_env_prefix "ION" (V.read_in_config w)
                    ∙ ap (λ (y : View). record y { prefix = "ION" }) (L.view-read_in_config w))) in
      let there = lookup-bind_map key "ION" keys x.bound (inl bound) in
      ap (λ y. setting L.environment y key) all
      ∙ rw there (
          rw found (
            ap (λ l. first_of (L.environment "ION" "." "_" key) (contents (L.files at) l key))
              empty))

  Chosen : String → V.State → Type 0
  Chosen cfg_file w =
      (at : Place) × IsPlaced cfg_file at
      × (place (L.view w) ≡ at)
      × ((L.view w).loaded ≡ (λ key. none))

  choosing :
      (cfg_file : String) (v w : V.State) (empty : Bool) (home : Result String)
      → L.view v ≡ fresh
      → is_empty cfg_file ≡ empty
      → V.home_dir ≡ home
      → (let chosen : Option V.State =
            (if empty
              then (elim home [
                | err _ ↦ none
                | ok dir ↦ some (V.set_config_name ".ioncluster" (V.add_config_path dir v))
              ])
              else some (V.set_config_type "toml" (V.set_config_file cfg_file v))) in
          chosen ≡ some w)
      → Chosen cfg_file w
  unfolding Chosen
  choosing cfg_file v w false home new given at_home h =
      let e : V.set_config_type "toml" (V.set_config_file cfg_file v) ≡ w = some-injective _ w h in
      let viewed : L.view w ≡ record fresh { file = some cfg_file; kind = "toml" } =
        ap L.view (sym e)
        ∙ (L.view-set_config_type "toml" (V.set_config_file cfg_file v)
            ∙ ap (λ (y : View). record y { kind = "toml" })
                (L.view-set_config_file cfg_file v given
                  ∙ ap (λ (y : View). record y { file = some cfg_file }) new)) in
      (
        file_at cfg_file "toml",
        inl (given, refl),
        ap place viewed,
        ap (λ (y : View). y.loaded) viewed,
      )
  choosing cfg_file v w true (err _) new given at_home h = cc
  choosing cfg_file v w true (ok dir) new given at_home h =
      let e : V.set_config_name ".ioncluster" (V.add_config_path dir v) ≡ w =
        some-injective _ w h in
      let viewed : L.view w ≡ record fresh { name = ".ioncluster"; paths = dir ∷ [] } =
        ap L.view (sym e)
        ∙ (L.view-set_config_name ".ioncluster" (V.add_config_path dir v)
            ∙ ap (λ (y : View). record y { name = ".ioncluster"; file = none })
                (L.view-add_config_path dir v
                  ∙ ap (λ (y : View). record y { paths = y.paths ++ dir ∷ [] }) new)) in
      (
        found_in (dir ∷ []) ".ioncluster",
        inr (given, (dir, at_home, refl)),
        ap place viewed,
        ap (λ (y : View). y.loaded) viewed,
      )

  pub setting-worth :
      (cfg_file : String) (v w : V.State)
      → L.view v ≡ fresh
      → choose_file V K cfg_file v ≡ some w
      → (at : Place) × IsPlaced cfg_file at
        × ((key : String)
            → Binds (bind_config_envs (root_struct V.sfu_struct) []) key
            → setting L.environment (L.view (read_all V K w)) key ≡ worth at key)
  unfolding Chosen
  setting-worth cfg_file v w new h =
      let (at, placed, found, empty) =
        choosing cfg_file v w (is_empty cfg_file) V.home_dir new refl refl h in
      (at, placed, λ key bound. setting-read_all at w key bound found empty)
