-- ===== src/Config/Manager.antt =====
-- src/config.go, ConfigManager: the configuration in use and its reload. What os.Stat, os.ReadFile
-- and json.Unmarshal give is an argument; a time is a number, and 0 is the zero time.
pub mod Steps
use goxot.Base.{
  ℕ, Bool, true, false, List, [], ◌∷◌, Option, none, some, Result, ok, err, ◌==◌, if◌then◌else◌,
}
use goxot.Base.Maps.{Key}
use goxot.Config.Ints.{ℤ, pos}
use goxot.Config.Tun.{TunConfig, lci_start_default, lci_end_default, with_defaults}
use goxot.Config.Servers.{ServerConfig, valid_servers}
use goxot.Config.Destinations.{validate_destinations, find_destination}

-- The stats ports and the routes of tun-loopback pass through as they are.
pub record Config : Type 0 where
  pub tun_gateway : TunConfig
  pub tun_loopback : TunConfig
  pub xot_gateway : List ℕ
  pub xot_server : List ℕ
  pub gateway_port : List ℕ
  pub loopback_port : List ℕ
  pub routes : List (List ℕ)
  pub servers : List ServerConfig
  pub destinations : List (List ℕ × List (List ℕ × List ℕ))

pub record ConfigManager : Type 0 where
  pub config : Option Config
  pub last_mod : ℕ

abbrev pub unloaded : ConfigManager
unloaded = record { config = none; last_mod = 0 }

pub data ConfigError : Type 0 where
  no_file unreadable malformed : ConfigError

unfoldable pub prepared : Config → Config
prepared cfg = record cfg {
  tun_gateway = with_defaults cfg.tun_gateway;
  tun_loopback = with_defaults cfg.tun_loopback;
  servers = valid_servers cfg.servers;
  destinations = validate_destinations cfg.destinations;
}

-- The file as a reload finds it: its time, or an error, and its text, or an error.
pub record File : Type 0 where
  pub mod_time : Option ℕ
  pub text : Option (List ℕ)

module _ (unmarshal : List ℕ → Option Config) where
  load_text : ConfigManager → ℕ → Option Config → ConfigManager × Result ConfigError Bool
  load_text cm time none = (cm, err malformed)
  load_text cm time (some cfg) = (record { config = some (prepared cfg); last_mod = time }, ok true)

  load_file : ConfigManager → ℕ → Option (List ℕ) → ConfigManager × Result ConfigError Bool
  unfolding load_text
  load_file cm time none = (cm, err unreadable)
  load_file cm time (some text) = load_text cm time (unmarshal text)

  unfoldable pub reload : ConfigManager → File → ConfigManager × Result ConfigError Bool
  unfolding load_file
  reload cm f = elim f.mod_time [
    | none ↦ (cm, err no_file)
    | some time ↦ if time == cm.last_mod then (cm, ok false) else load_file cm time f.text
  ]

  unfoldable pub new_config_manager : File → ConfigManager × Result ConfigError Bool
  new_config_manager f = reload unloaded f

-- The getters: `none` stands for a nil manager.
abbrev tun_default : ℤ → TunConfig
tun_default modulo = record {
  lci_start = lci_start_default;
  lci_end = lci_end_default;
  modulo = modulo;
}

unfoldable pub config_of : Option ConfigManager → Option Config
config_of none = none
config_of (some cm) = cm.config

unfoldable pub get_tun_gateway_config : Option ConfigManager → TunConfig
unfolding config_of
get_tun_gateway_config cm = elim (config_of cm) [
  | none ↦ tun_default (pos 8)
  | some cfg ↦ cfg.tun_gateway
]

unfoldable pub get_tun_loopback_config : Option ConfigManager → TunConfig
unfolding config_of
get_tun_loopback_config cm = elim (config_of cm) [
  | none ↦ tun_default (pos 0)
  | some cfg ↦ cfg.tun_loopback
]

unfoldable pub get_servers : Option ConfigManager → List ServerConfig
unfolding config_of
get_servers cm = elim (config_of cm) [ none ↦ [] | some cfg ↦ cfg.servers ]

unfoldable pub get_destinations : Option ConfigManager → List (List ℕ × List (List ℕ × List ℕ))
unfolding config_of
get_destinations cm = elim (config_of cm) [ none ↦ [] | some cfg ↦ cfg.destinations ]

unfoldable pub get_xot_gateway_config : Option ConfigManager → List ℕ
unfolding config_of
get_xot_gateway_config cm = elim (config_of cm) [ none ↦ [] | some cfg ↦ cfg.xot_gateway ]

unfoldable pub get_xot_server_config : Option ConfigManager → List ℕ
unfolding config_of
get_xot_server_config cm = elim (config_of cm) [ none ↦ [] | some cfg ↦ cfg.xot_server ]

unfoldable pub get_destination : Option ConfigManager → List ℕ → Option (List (List ℕ × List ℕ))
unfolding config_of
get_destination cm addr = elim (config_of cm) [
  | none ↦ none
  | some cfg ↦ find_destination addr cfg.destinations
]
