-- ===== src/Config.antt =====
-- src/config.rs and src/main.rs: the configuration, from the arguments, a file and the defaults. The
-- parsers of the arguments and of the file, and the reading of the file, are the libraries':
-- parameters. A path is its text.
use srrdb.Prelude.{
  ℕ, ◌≡◌, refl, ◌∙◌, Bool, Option, none, some, List, [], ◌++◌, if◌then◌else◌, unwrap_or, any, ◌==◌,
  list_eq, nat_eq, arith,
}
use srrdb.Std.Text.{Text, codes}
use srrdb.Std.Decimal.{nat_to_string}

pub record ConfigFile : Type 0 where
  pub host : Option Text
  pub port : Option ℕ
  pub data_dir : Option Text
  pub log_level : Option Text
  pub default_password : Option Text

pub record CliArgs : Type 0 where
  pub config : Option Text
  pub host : Option Text
  pub port : Option ℕ
  pub data_dir : Option Text
  pub log_level : Option Text
  pub default_password : Option Text
  pub repl : Bool
  pub client : Bool
  pub user : Option Text
  pub password : Option Text

pub record Config : Type 0 where
  pub host : Text
  pub port : ℕ
  pub data_dir : Text
  pub log_level : Text
  pub default_password : Option Text
  pub client : Bool
  pub user : Text
  pub password : Text

abbrev pub default_host : Text
default_host = codes "127.0.0.1"

abbrev pub default_port : ℕ
default_port = 3307

abbrev pub default_data_dir : Text
default_data_dir = codes "data"

abbrev pub default_log_level : Text
default_log_level = codes "info"

-- the configuration before the file
unfoldable pub initial : CliArgs → Config
initial args = record {
  host = default_host;
  port = default_port;
  data_dir = default_data_dir;
  log_level = default_log_level;
  default_password = none;
  client = args.client;
  user = unwrap_or args.user (codes "root");
  password = unwrap_or args.password [];
}

-- five `if let Some(..)` in a row, of the file and of the arguments
unfoldable pub override :
    Option Text → Option ℕ → Option Text → Option Text → Option Text → Config → Config
override host port data_dir log_level default_password c0 =
    let c1 : Config = elim host [ none ↦ c0 | some v ↦ record c0 { host = v } ] in
    let c2 : Config = elim port [ none ↦ c1 | some v ↦ record c1 { port = v } ] in
    let c3 : Config = elim data_dir [ none ↦ c2 | some v ↦ record c2 { data_dir = v } ] in
    let c4 : Config = elim log_level [ none ↦ c3 | some v ↦ record c3 { log_level = v } ] in
    elim default_password [ none ↦ c4 | some v ↦ record c4 { default_password = some v } ]

-- reading a file, and `toml::from_str`
pub record FileReader : Type 0 where
  pub read_to_string : Text → Option Text
  pub from_toml : Text → Option ConfigFile

unfoldable pub from_file : Option ConfigFile → Config → Config
from_file none c = c
from_file (some f) c = override f.host f.port f.data_dir f.log_level f.default_password c

module _ ⦃r : FileReader⦄ where
  -- the file that the arguments name, where it can be read and parsed
  unfoldable pub config_file : CliArgs → Option ConfigFile
  config_file args = elim args.config [
    | none ↦ none
    | some path ↦ elim (r.read_to_string path) [ none ↦ none | some content ↦ r.from_toml content ]
  ]

  -- `Config::load`
  unfoldable pub load : CliArgs → Config
  load args =
      override args.host args.port args.data_dir args.log_level args.default_password
        (from_file (config_file args) (initial args))

-- `Config::addr`
unfoldable pub addr : Config → Text
addr c = c.host ++ (codes ":" ++ nat_to_string c.port)

-- the first of two that is there
abbrev pub first {ℓ} : {A : Type ℓ} → Option A → Option A → Option A
first none b = b
first (some a) b = some a

-- a field of the file, where there is one
abbrev pub of_file {ℓ} : {A : Type ℓ} → Option ConfigFile → (ConfigFile → Option A) → Option A
of_file none field = none
of_file (some f) field = field f

first-unwrap_or {ℓ} :
    {A : Type ℓ} (a b : Option A) (d : A) → unwrap_or a (unwrap_or b d) ≡ unwrap_or (first a b) d
first-unwrap_or none b d = refl
first-unwrap_or (some a) b d = refl

first-none {ℓ} : {A : Type ℓ} (a : Option A) → first a none ≡ a
first-none none = refl
first-none (some a) = refl

-- each field is the given one, where it is given
override-fields :
    (host : Option Text) (port : Option ℕ) (data_dir log_level default_password : Option Text)
    (c : Config)
    → override host port data_dir log_level default_password c ≡ record {
      host = unwrap_or host c.host;
      port = unwrap_or port c.port;
      data_dir = unwrap_or data_dir c.data_dir;
      log_level = unwrap_or log_level c.log_level;
      default_password = first default_password c.default_password;
      client = c.client;
      user = c.user;
      password = c.password;
    }
unfolding override
override-fields host port data_dir log_level default_password c = ground arith

-- the settings from the arguments, a file's fields and the defaults
abbrev pub settings : CliArgs → Option ConfigFile → Config
settings args f = record {
  host = unwrap_or (first args.host (of_file f (λ x. x.host))) default_host;
  port = unwrap_or (first args.port (of_file f (λ x. x.port))) default_port;
  data_dir = unwrap_or (first args.data_dir (of_file f (λ x. x.data_dir))) default_data_dir;
  log_level = unwrap_or (first args.log_level (of_file f (λ x. x.log_level))) default_log_level;
  default_password = first args.default_password (of_file f (λ x. x.default_password));
  client = args.client;
  user = unwrap_or args.user (codes "root");
  password = unwrap_or args.password [];
}

override-settings :
    (args : CliArgs) (o : Option ConfigFile)
    → override args.host args.port args.data_dir args.log_level args.default_password
        (from_file o (initial args))
      ≡ settings args o
unfolding from_file initial
override-settings args none = ground (
  arith,
  override-fields args.host args.port args.data_dir args.log_level args.default_password
      (initial args),
)
override-settings args (some f) =
    let file =
      override-fields f.host f.port f.data_dir f.log_level f.default_password (initial args) in
    rw file (
      override-fields args.host args.port args.data_dir args.log_level args.default_password _
      ∙ rw (first-unwrap_or args.host f.host default_host) (
          rw (first-unwrap_or args.port f.port default_port) (
            rw (first-unwrap_or args.data_dir f.data_dir default_data_dir) (
              rw (first-unwrap_or args.log_level f.log_level default_log_level)
                (rw (first-none f.default_password) refl)))))

module _ ⦃r : FileReader⦄ where
  -- Each setting is the first that is there of the argument, the file's field, and the default: a
  -- file that is not named, cannot be read or cannot be parsed gives no field. The user and the
  -- password of the client come from the arguments alone.
  pub load-first : (args : CliArgs) → load args ≡ settings args (config_file args)
  unfolding load
  load-first args = override-settings args (config_file args)

-- what `main` runs
pub data Mode : Type 0 where
  repl : Mode
  client : Mode
  server : Mode

-- the tests of `main` on the raw arguments
unfoldable pub mode : List Text → Mode
mode args =
    if any (λ a. a == codes "--repl") args
    then Mode.repl
    else if any (λ a. a == codes "--client") args
    then Mode.client
    else Mode.server
