-- ===== src/Startup.antt =====
-- cmd/root.go and the main functions of cmd/temper and cmd/scheduler: how the processes come to their
-- configuration. viper and homedir are other packages. `log.Fatal` ends the process: an error of
-- these functions is the one that it ends with.
use ironic_temper.Base.{ℕ, String, Option, none, some, List, [], ◌∷◌, ◌==◌, if◌then◌else◌}
use ironic_temper.Go.{ok, Exec, Call, ◌>>=◌, ◌>>◌, inspect, branch, of_reply}
use ironic_temper.Text.{is_empty}

-- A default value.
pub data Setting : Type 0 where
  text : String → Setting
  number : ℕ → Setting

-- The calls of viper that write to it and those that read files or the environment; `C` is the
-- configuration.
pub record ViperApi (C W : Type 0) : Type 0 where
  pub set_default : String → Setting → W → W
  pub bind_env : String → String → W → W
  pub set_config_file : String → W → W
  pub add_config_path : String → W → W
  pub set_config_name : String → W → W
  pub automatic_env : W → W
  pub read_in_config : Call W (Unit {0})
  pub unmarshal : Call W C
  -- `homedir.Dir()`
  pub home_dir : Call W String

-- A key, the variable of the environment that is bound to it, and its default.
pub record Binding : Type 0 where
  pub key : String
  pub variable : String
  pub default : Setting

abbrev empty_text : String → String → Binding
empty_text key variable = record { key = key; variable = variable; default = text "" }

-- The pairs of `SetDefault` and `BindEnv`.
unfoldable pub bindings : List Binding
bindings =
    empty_text "region" "region"
    ∷ empty_text "inspector.host" "inspector_host"
    ∷ empty_text "redfish.user" "redfish_user"
    ∷ empty_text "redfish.password" "redfish_password"
    ∷ empty_text "redfish.bootImage" "redfish_bootImage"
    ∷ empty_text "netbox.token" "netbox_token"
    ∷ empty_text "netbox.host" "netbox_host"
    ∷ empty_text "openstack.user" "openstack_user"
    ∷ empty_text "openstack.password" "openstack_password"
    ∷ empty_text "openstack.projectDomainName" "openstack_projectDomainName"
    ∷ empty_text "openstack.projectName" "openstack_projectName"
    ∷ empty_text "openstack.domainName" "openstack_domainName"
    ∷ empty_text "arista.user" "arista_user"
    ∷ empty_text "arista.password" "arista_password"
    ∷ empty_text "arista.transport" "arista_transport"
    ∷ record { key = "arista.port"; variable = "arista_port"; default = number 0 }
    ∷ empty_text "aci.user" "aci_user"
    ∷ empty_text "aci.password" "aci_password"
    ∷ empty_text "deployment.image" "deployment_image"
    ∷ empty_text "deployment.conductorZone" "deployment_conductorZone"
    ∷ empty_text "deployment.flavor" "deployment_flavor"
    ∷ empty_text "deployment.network" "deployment_network"
    ∷ empty_text "deployment.openstack.user" "deployment_openstack_user"
    ∷ empty_text "deployment.openstack.password" "deployment_openstack_password"
    ∷ empty_text "deployment.openstack.projectDomainName" "deployment_openstack_projectDomainName"
    ∷ empty_text "deployment.openstack.projectName" "deployment_openstack_projectName"
    ∷ empty_text "deployment.openstack.domainName" "deployment_openstack_domainName"
    ∷ []

-- The levels of the logger that a number of the command line stands for.
pub data Level : Type 0 where
  fatal_level error_level warn_level info_level debug_level : Level

-- The `switch` of `init`; another number leaves the level alone.
unfoldable pub level_of : ℕ → Option Level
level_of n =
    if n == 1
    then some fatal_level
    else if n == 2
    then some error_level
    else if n == 3
    then some warn_level
    else if n == 4
    then some info_level
    else if n == 5
    then some debug_level
    else none

-- `init` looks at the variable before the command line is read, when it has the flag's default.
abbrev level_at_start : Option Level
level_at_start = level_of 5

module _ {C W : Type 0} (viper : ViperApi C W) where
  abbrev called : (W → W) → Exec W (Unit {0})
  called f w = (ok tt, f w)

  abbrev asked : {A : Type 0} → Call W A → Exec W A
  asked c w = let (r, w') = c w in of_reply r w'

  -- The defaults and the variables, in the order of the table.
  unfoldable pub bind_all : List Binding → W → W
  bind_all [] w = w
  bind_all (b ∷ bs) w =
      bind_all bs (viper.bind_env b.key b.variable (viper.set_default b.key b.default w))

  -- The search for `config.yaml` in the home directory.
  abbrev pub search_home : Exec W (Unit {0})
  search_home = do
    home ← asked viper.home_dir
    called (viper.add_config_path home)
    called (viper.set_config_name "config.yaml")

  -- `UnmarshalConfig`
  unfoldable pub unmarshal_config : Exec W C
  unmarshal_config = asked viper.unmarshal

  -- `InitConfig`, by the flag `config`. A file that cannot be read is passed over.
  unfoldable pub init_config : String → Exec W C
  unfolding bind_all unmarshal_config bindings
  init_config cfg_file = do
    called (bind_all bindings)
    branch (is_empty cfg_file) search_home (called (viper.set_config_file cfg_file))
    found ← inspect (asked viper.read_in_config)
    called viper.automatic_env
    unmarshal_config

  -- How both main functions come to their configuration, by the path of their own flag.
  unfoldable pub main_config : String → Exec W C
  main_config config_file_path = do
    called (viper.set_config_file config_file_path)
    init_config ""
    unmarshal_config
