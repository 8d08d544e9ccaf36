-- ===== src/Config/Manager/Steps.antt =====
-- src/config.go, ConfigManager: what holds after any number of reloads.
use goxot.Base.{
  ℕ, ◌≡◌, refl, Bool, true, false, List, [], ◌∷◌, Option, none, some, ok, err, ◌==◌, if◌then◌else◌,
  arith, All, inl,
}
use goxot.Config.Ints.{pos}
use goxot.Config.Tun.{TunConfig}
use goxot.Config.Tun.Bounds.{IsUsable, with_defaults-IsUsable}
use goxot.Config.Servers.{ServerConfig}
use goxot.Config.Servers.Valid.{IsServer, valid_servers-IsServer}
use goxot.Config.Manager.{
  Config, ConfigManager, unloaded, ConfigError, prepared, File, load_text, load_file, reload,
  tun_default, config_of, get_tun_gateway_config, get_servers,
}

-- The configuration in use is fit for use.
pub record IsPrepared (cfg : Config) : Type 0 where
  pub gateway : IsUsable cfg.tun_gateway
  pub loopback : IsUsable cfg.tun_loopback
  pub servers : All IsServer cfg.servers

abbrev pub IsValid : Option Config → Type 0
IsValid none = Unit {0}
IsValid (some cfg) = IsPrepared cfg

module _ (unmarshal : List ℕ → Option Config) where
  -- The manager after the files that the reloads find.
  pub reload_all : ConfigManager → List File → ConfigManager
  reload_all cm [] = cm
  reload_all cm (f ∷ files) = reload_all (reload unmarshal cm f).0 files

  load_text-IsValid :
      (cm : ConfigManager) (time : ℕ) (o : Option Config)
      → IsValid cm.config
      → IsValid (load_text unmarshal cm time o).0.config
  unfolding load_text prepared
  load_text-IsValid cm time none v = v
  load_text-IsValid cm time (some cfg) v = record {
    gateway = with_defaults-IsUsable cfg.tun_gateway;
    loopback = with_defaults-IsUsable cfg.tun_loopback;
    servers = (valid_servers-IsServer cfg.servers).0;
  }

  load_file-IsValid :
      (cm : ConfigManager) (time : ℕ) (text : Option (List ℕ))
      → IsValid cm.config
      → IsValid (load_file unmarshal cm time text).0.config
  unfolding load_file
  load_file-IsValid cm time none v = v
  load_file-IsValid cm time (some text) v = load_text-IsValid cm time (unmarshal text) v

  found-IsValid :
      (cm : ConfigManager) (text : Option (List ℕ)) (t : ℕ) (b : Bool)
      → IsValid cm.config
      → IsValid (if b then (cm, ok false) else load_file unmarshal cm t text).0.config
  found-IsValid cm text t true v = v
  found-IsValid cm text t false v = load_file-IsValid cm t text v

  timed-IsValid :
      (cm : ConfigManager) (time : Option ℕ) (text : Option (List ℕ))
      → IsValid cm.config
      → IsValid (reload unmarshal cm (record { mod_time = time; text = text })).0.config
  unfolding reload
  timed-IsValid cm none text v = v
  timed-IsValid cm (some t) text v = found-IsValid cm text t (t == cm.last_mod) v

  reload_all-IsValid :
      (files : List File) (cm : ConfigManager)
      → IsValid cm.config
      → IsValid (reload_all cm files).config
  unfolding reload_all
  reload_all-IsValid [] cm v = v
  reload_all-IsValid (f ∷ files) cm v =
      reload_all-IsValid files _ (timed-IsValid cm f.mod_time f.text v)

  usable :
      (o : Option Config)
      → IsValid o
      → IsUsable
          (elim o as (λ o'. TunConfig) [ none ↦ tun_default (pos 8) | some cfg ↦ cfg.tun_gateway ])
        × All IsServer (elim o as (λ o'. List ServerConfig) [ none ↦ [] | some cfg ↦ cfg.servers ])
  usable none v = (
    record {
      start = 1024;
      end = 2048;
      is_start = refl;
      is_end = refl;
      low = omega arith;
      ordered = omega arith;
      high = omega arith;
      is_modulo = inl refl;
    },
    tt,
  )
  usable (some cfg) v = (v.gateway, v.servers)

  -- Whatever the files say that the reloads find, and however often a reload fails, the LCI range
  -- and the modulus of tun-gateway are usable, and the servers are fit for use.
  pub reload_all-IsUsable :
      (files : List File)
      → let cm = some (reload_all unloaded files) in
        IsUsable (get_tun_gateway_config cm) × All IsServer (get_servers cm)
  unfolding get_tun_gateway_config get_servers config_of
  reload_all-IsUsable files = usable _ (reload_all-IsValid files unloaded tt)

module _ (unmarshal : List ℕ → Option Config) (cm : ConfigManager) (e : ConfigError) where
  text_failed :
      (time : ℕ) (o : Option Config)
      → (load_text unmarshal cm time o).1 ≡ err e
      → (load_text unmarshal cm time o).0 ≡ cm
  unfolding load_text
  text_failed time none h = refl
  text_failed time (some cfg) h = ground (arith, h)

  file_failed :
      (time : ℕ) (text : Option (List ℕ))
      → (load_file unmarshal cm time text).1 ≡ err e
      → (load_file unmarshal cm time text).0 ≡ cm
  unfolding load_file
  file_failed time none h = refl
  file_failed time (some text) h = text_failed time (unmarshal text) h

  found_failed :
      (time : ℕ) (text : Option (List ℕ)) (b : Bool)
      → (if b then (cm, ok false) else load_file unmarshal cm time text).1 ≡ err e
      → (if b then (cm, ok false) else load_file unmarshal cm time text).0 ≡ cm
  found_failed time text true h = refl
  found_failed time text false h = file_failed time text h

  timed_failed :
      (time : Option ℕ) (text : Option (List ℕ))
      → (reload unmarshal cm (record { mod_time = time; text = text })).1 ≡ err e
      → (reload unmarshal cm (record { mod_time = time; text = text })).0 ≡ cm
  unfolding reload
  timed_failed none text h = refl
  timed_failed (some time) text h = found_failed time text (time == cm.last_mod) h

  -- A reload that fails leaves the configuration and the time as they were, so the file is read
  -- again by the next one.
  pub reload_failed :
      (f : File) → (reload unmarshal cm f).1 ≡ err e → (reload unmarshal cm f).0 ≡ cm
  reload_failed f h = timed_failed f.mod_time f.text h
