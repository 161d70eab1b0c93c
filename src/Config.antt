-- ===== src/Config.antt =====
-- shared/libs/go/config and what the `LoadConfig` of the services share: the loader with its defaults
-- and the variables of the environment that are bound to keys, the database URL, and the common
-- fields. viper and net/url are parameters.
pub mod Services
pub mod Api
use Prim.Native.String.{String}
use Prim.Native.String.{◌++◌ as str_append}
use eventflow_commerce.Common.{
  ℕ, ◌≡◌, refl, subst, inl, inr, Bool, Bool-cases, true, false, not, Option, none, some, List, [],
  ◌∷◌, ◌++◌, if◌then◌else◌,
}
use eventflow_commerce.Order.Domain.{is_empty}

-- The errors of `fmt.Errorf`, by the variable of the environment or the field that they name.
pub data ConfigError : Type 0 where
  load_failed : ConfigError
  not_set : String → ConfigError
  invalid : String → ConfigError
  required : String → ConfigError
  out_of_range : String → ConfigError
  weak : String → ConfigError

-- How `LoadConfig` ends: it may also panic.
pub data Loaded (A : Type 0) : Type 0 where
  loaded : A → Loaded A
  failed : ConfigError → Loaded A
  panicked : Loaded A

pub data Value : Type 0 where
  text : String → Value
  number : ℕ → Value
  texts : List String → Value

-- `CfgLoader`
pub record CfgLoader : Type 0 where
  pub service : String
  pub defaults : List (String × Value)
  pub bindings : List (String × List String)

-- `New`
abbrev pub new_loader : String → CfgLoader
new_loader service = record { service = service; defaults = []; bindings = [] }

-- `SetDefault` and `BindEnv`, several calls at once
abbrev pub set_defaults : List (String × Value) → CfgLoader → CfgLoader
set_defaults values l = record l { defaults = l.defaults ++ values }

abbrev pub bind_envs : List (String × List String) → CfgLoader → CfgLoader
bind_envs vars l = record l { bindings = l.bindings ++ vars }

-- `DatabaseConfig`
pub record DatabaseConfig : Type 0 where
  pub db_host : String
  pub db_port : String
  pub db_user : String
  pub db_password : String
  pub db_name : String
  pub ssl_mode : String

-- The fields that every service validates.
pub record Common : Type 0 where
  pub server_host : String
  pub server_port : String
  pub redis_url : String
  pub brokers : List String
  pub endpoint : String
  pub database : DatabaseConfig

-- What the code reads of a `url.URL`.
pub record Url : Type 0 where
  pub scheme : String
  pub url_host : String
  pub hostname : String
  pub port : String
  pub user_name : String
  pub user_password : String
  pub url_path : String
  pub query_ssl_mode : String

-- viper and `url.Parse`: what `Load` finds for a loader, `none` for an error; `GetString`; and the
-- parts of a URL, `none` for an error.
pub record Environment (A : Type 0) : Type 0 where
  pub load : CfgLoader → Option A
  pub get_string : CfgLoader → String → String
  pub parse_url : String → Option Url

-- Validation goes on to the next check, or stops with an error.
pub data Checked : Type 0 where
  fine : Checked
  stop : ConfigError → Checked

infixl 5 ◌>>◌
abbrev pub ◌>>◌ : Checked → Checked → Checked
fine >> k = k
stop e >> k = stop e

abbrev pub refuse_if : Bool → ConfigError → Checked
refuse_if true e = stop e
refuse_if false e = fine

abbrev pub has_none : List String → Bool
has_none [] = true
has_none (x ∷ xs) = false

-- The first checks of each `Validate`, by the name of the variable for the port.
unfoldable pub check_common : String → Common → Checked
check_common port_env c = do
  refuse_if (is_empty c.server_port) (not_set port_env)
  refuse_if (is_empty c.redis_url) (not_set "REDIS_URL")
  refuse_if (has_none c.brokers) (not_set "KAFKA_BROKERS")
  refuse_if (is_empty c.endpoint) (not_set "OTEL_EXPORTER_OTLP_ENDPOINT")

-- The last checks of each `Validate`.
unfoldable pub check_database : DatabaseConfig → Checked
check_database d = do
  refuse_if (is_empty d.db_host) (required "database host")
  refuse_if (is_empty d.db_port) (required "database port")
  refuse_if (is_empty d.db_user) (required "database user")
  refuse_if (is_empty d.db_password) (required "database password")
  refuse_if (is_empty d.db_name) (required "database name")

-- The fields of a parsed URL, with the path behind its first character.
abbrev pub database_of : Url → String → DatabaseConfig
database_of u name = record {
  db_host = u.hostname;
  db_port = u.port;
  db_user = u.user_name;
  db_password = u.user_password;
  db_name = name;
  ssl_mode = u.query_ssl_mode;
}

module _ {A : Type 0} (env : Environment A) where
  abbrev pub checked_as : Checked → A → Loaded A
  checked_as fine c = loaded c
  checked_as (stop e) c = failed e

  -- `parsedURL.Path[1:]` panics when the URL has no path.
  abbrev pub with_url : (A → Checked) → (A → DatabaseConfig → A) → A → Url → String → Loaded A
  with_url validate set c u String.[] = panicked
  with_url validate set c u (String.◌∷◌ slash name) =
      let full = set c (database_of u name) in checked_as (validate full) full

  abbrev pub with_database :
      String → (A → Checked) → (A → DatabaseConfig → A) → A → Option Url → Loaded A
  with_database url_env validate set c none = failed (invalid url_env)
  with_database url_env validate set c (some u) = with_url validate set c u u.url_path

  abbrev pub if_set :
      String → (A → Checked) → (A → DatabaseConfig → A) → String → Option A → Loaded A
  if_set url_env validate set url none = failed load_failed
  if_set url_env validate set url (some c) =
      if is_empty url
      then failed (not_set url_env)
      else with_database url_env validate set c (env.parse_url url)

  -- What the four `LoadConfig` do with their loader: load, parse the database URL, fill in its parts,
  -- validate.
  unfoldable pub load_with :
      CfgLoader → String → (A → Checked) → (A → DatabaseConfig → A) → Loaded A
  load_with l url_env validate set =
      if_set url_env validate set (env.get_string l "database.url") (env.load l)

  checked_lem :
      (validate : A → Checked) (k : Checked) (full c : A)
      → validate full ≡ k
      → checked_as k full ≡ loaded c
      → validate c ≡ fine
  checked_lem validate fine full c v h =
      let same : full ≡ c = cc h in subst (λ x. validate x ≡ fine) same v
  checked_lem validate (stop e) full c v h = absurd (cc h)

  url_lem :
      (validate : A → Checked) (set : A → DatabaseConfig → A) (x : A) (u : Url) (path : String)
      (c : A)
      → with_url validate set x u path ≡ loaded c
      → validate c ≡ fine
  url_lem validate set x u String.[] c h = absurd (cc h)
  url_lem validate set x u (String.◌∷◌ slash name) c h =
      checked_lem validate (validate (set x (database_of u name))) (set x (database_of u name)) c
        refl h

  database_lem :
      (url_env : String) (validate : A → Checked) (set : A → DatabaseConfig → A) (x : A)
      (o : Option Url) (c : A)
      → with_database url_env validate set x o ≡ loaded c
      → validate c ≡ fine
  database_lem url_env validate set x none c h = absurd (cc h)
  database_lem url_env validate set x (some u) c h = url_lem validate set x u u.url_path c h

  set_lem :
      (url_env : String) (validate : A → Checked) (set : A → DatabaseConfig → A) (url : String)
      (o : Option A) (c : A)
      → if_set url_env validate set url o ≡ loaded c
      → validate c ≡ fine
  set_lem url_env validate set url none c = λ h. absurd (cc h)
  set_lem url_env validate set url (some x) c = elim (Bool-cases (is_empty url)) [
    | inl e ↦ rw e (λ h. absurd (cc h))
    | inr e ↦ rw e (λ h. database_lem url_env validate set x (env.parse_url url) c h)
  ]

  -- A configuration that is loaded has passed its checks.
  pub load_with_lem :
      (l : CfgLoader) (url_env : String) (validate : A → Checked) (set : A → DatabaseConfig → A)
      (c : A)
      → load_with l url_env validate set ≡ loaded c
      → validate c ≡ fine
  unfolding load_with
  load_with_lem l url_env validate set c h =
      set_lem url_env validate set (env.get_string l "database.url") (env.load l) c h

-- What a service may rely on in its configuration.
pub record IsComplete (c : Common) : Type 0 where
  pub has_port : is_empty c.server_port ≡ false
  pub has_redis : is_empty c.redis_url ≡ false
  pub has_brokers : has_none c.brokers ≡ false
  pub has_endpoint : is_empty c.endpoint ≡ false
  pub has_host : is_empty c.database.db_host ≡ false
  pub has_db_port : is_empty c.database.db_port ≡ false
  pub has_user : is_empty c.database.db_user ≡ false
  pub has_password : is_empty c.database.db_password ≡ false
  pub has_name : is_empty c.database.db_name ≡ false

-- Two groups of checks that let a configuration pass.
pub both_fine : (a b : Checked) → (a >> b) ≡ fine → (a ≡ fine) × (b ≡ fine)
both_fine fine b h = (refl, h)
both_fine (stop e) b h = absurd (cc h)

pub refused_not : (b : Bool) (e : ConfigError) → refuse_if b e ≡ fine → b ≡ false
refused_not true e h = absurd (cc h)
refused_not false e h = refl

pub checks-IsComplete :
    (port_env : String) (c : Common)
    → check_common port_env c ≡ fine
    → check_database c.database ≡ fine
    → IsComplete c
unfolding check_common check_database
checks-IsComplete port_env c h k =
    let a = both_fine (refuse_if (is_empty c.server_port) (not_set port_env)) _ h in
    let b = both_fine (refuse_if (is_empty c.redis_url) _) _ a.1 in
    let d = both_fine (refuse_if (has_none c.brokers) _) _ b.1 in
    let e = both_fine (refuse_if (is_empty c.database.db_host) _) _ k in
    let f = both_fine (refuse_if (is_empty c.database.db_port) _) _ e.1 in
    let g = both_fine (refuse_if (is_empty c.database.db_user) _) _ f.1 in
    let i = both_fine (refuse_if (is_empty c.database.db_password) _) _ g.1 in
    record {
      has_port = refused_not _ _ a.0;
      has_redis = refused_not _ _ b.0;
      has_brokers = refused_not _ _ d.0;
      has_endpoint = refused_not _ _ d.1;
      has_host = refused_not _ _ e.0;
      has_db_port = refused_not _ _ f.0;
      has_user = refused_not _ _ g.0;
      has_password = refused_not _ _ i.0;
      has_name = refused_not _ _ i.1;
    }
