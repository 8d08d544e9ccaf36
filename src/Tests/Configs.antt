-- ===== src/Tests/Configs.antt =====
-- src/config.go at concrete inputs.
use goxot.Base.{
  ◌↔◌, ℕ, ◌≤◌, ◌≡◌, refl, Bool, true, false, List, [], ◌∷◌, Option, none, some, err, arith, inr,
  ◌⊎◌, codes, All,
}
use goxot.Base.Hex.{decode_hex, from_hex_char}
use goxot.Prefix.Longest.{score, IsFirstBest}
use goxot.Config.Ints.{pos, negsuc}
use goxot.Config.Tun.{TunConfig, with_defaults}
use goxot.Config.Tun.Bounds.{IsUsable, with_defaults_lem}
use goxot.Config.Servers.{ServerConfig, prefix_of, get_server}
use goxot.Config.Servers.Valid.{IsServer, get_server_longest}
use goxot.Config.Destinations.{validate_destinations}
use goxot.Config.Destinations.Valid.{
  IsShort, AllShort, HasSettings, HasFacility, validate_destinations-IsDecoded,
}
use goxot.Config.Manager.{
  Config, unloaded, ConfigError, File, reload, get_tun_gateway_config, get_servers,
}
use goxot.Config.Manager.Steps.{reload_all, reload_all-IsUsable}

abbrev odd_range : TunConfig
odd_range = record { lci_start = negsuc 4; lci_end = pos 9000; modulo = pos 7 }

with_defaults_lem_example :
    IsUsable (with_defaults odd_range)
    × (IsUsable odd_range ↔ (with_defaults odd_range ≡ odd_range))
with_defaults_lem_example = with_defaults_lem odd_range

abbrev good_range : TunConfig
good_range = record { lci_start = pos 1; lci_end = pos 4095; modulo = pos 128 }

good-IsUsable : IsUsable good_range
good-IsUsable = record {
  start = 1;
  end = 4095;
  is_start = refl;
  is_end = refl;
  low = omega arith;
  ordered = omega arith;
  high = omega arith;
  is_modulo = inr refl;
}

abbrev short_prefix : ServerConfig
short_prefix = record {
  prefix = codes "12/2";
  ip = codes "10.0.0.1";
  port = [];
  dns_pattern = [];
  dns_name = [];
  tcp_keepalive_interval = none;
  x25_keepalive_interval = pos 0;
}

abbrev long_prefix : ServerConfig
long_prefix = record {
  prefix = codes "123/3";
  ip = [];
  port = [];
  dns_pattern = [];
  dns_name = codes "host";
  tcp_keepalive_interval = none;
  x25_keepalive_interval = pos 0;
}

abbrev no_address : List ℕ → ServerConfig → Option (List ℕ)
no_address x121_addr srv = some []

abbrev never : ℕ → Bool
never ip = false

get_server_longest_example :
    ((get_server no_address never (short_prefix ∷ long_prefix ∷ []) (codes "1234") true
        ≡ (none, true))
      × All (λ srv. score prefix_of (codes "1234") srv ≤ 0) (short_prefix ∷ long_prefix ∷ []))
    ⊎ ((best : ServerConfig) × ((get_server no_address never
            (short_prefix ∷ long_prefix ∷ [])
            (codes "1234")
            true).0
          ≡ some best)
        × IsFirstBest prefix_of (codes "1234") 0 (short_prefix ∷ long_prefix ∷ []) best)
get_server_longest_example =
    get_server_longest no_address never (short_prefix ∷ long_prefix ∷ []) (codes "1234") true

abbrev destinations : List (List ℕ × List (List ℕ × List ℕ))
destinations =
    (codes "1234", (codes "42", codes "0707") ∷ [])
    ∷ (codes "99", (codes "4", codes "0707") ∷ [])
    ∷ []

destinations_short : All AllShort destinations
unfolding IsShort decode_hex from_hex_char
destinations_short = ((λ val e. ground (arith, e), tt), ((λ val e. ground (arith, e), tt), tt))

validate_destinations-IsDecoded_example :
    All HasSettings (validate_destinations destinations)
    × All HasFacility (validate_destinations destinations)
validate_destinations-IsDecoded_example =
    validate_destinations-IsDecoded destinations destinations_short

abbrev loaded : Config
loaded = record {
  tun_gateway = odd_range;
  tun_loopback = good_range;
  xot_gateway = [];
  xot_server = [];
  gateway_port = [];
  loopback_port = [];
  routes = [];
  servers = short_prefix ∷ long_prefix ∷ [];
  destinations = destinations;
}

abbrev decoder : List ℕ → Option Config
decoder [] = none
decoder (c ∷ text) = some loaded

abbrev files : List File
files =
    record { mod_time = some 5; text = some (1 ∷ []) }
    ∷ record { mod_time = some 6; text = some [] }
    ∷ []

reload_all-IsUsable_example :
    IsUsable (get_tun_gateway_config (some (reload_all decoder unloaded files)))
    × All IsServer (get_servers (some (reload_all decoder unloaded files)))
reload_all-IsUsable_example = reload_all-IsUsable decoder files

abbrev missing : File
missing = record { mod_time = none; text = none }

missing_fails : (reload decoder unloaded missing).1 ≡ err ConfigError.no_file
unfolding reload
missing_fails = refl
