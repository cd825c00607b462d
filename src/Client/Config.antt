-- ===== src/Client/Config.antt =====
-- `ClientConfig` and `NativeClientConfig` of config.rs.
use rust_rdkafka.Prelude.{
  ℕ, ℤ, pos, String, Bool, true, false, Option, none, some, List, [], ◌∷◌, ◌||◌, str_eq,
  if◌then◌else◌,
}
use rust_rdkafka.Error.Defs.{
  KafkaResult, ok, err, ◌>>=◌, ConfRes, is_error_conf, client_config, cstring_new,
}

pub data LogLevel : Type 0 where
  emerg alert critical error warning notice info debug : LogLevel

abbrev nth_level : ℕ → LogLevel
nth_level ℕ.zero = emerg
nth_level (ℕ.suc ℕ.zero) = alert
nth_level (ℕ.suc (ℕ.suc ℕ.zero)) = critical
nth_level (ℕ.suc (ℕ.suc (ℕ.suc ℕ.zero))) = error
nth_level (ℕ.suc (ℕ.suc (ℕ.suc (ℕ.suc ℕ.zero)))) = warning
nth_level (ℕ.suc (ℕ.suc (ℕ.suc (ℕ.suc (ℕ.suc ℕ.zero))))) = notice
nth_level (ℕ.suc (ℕ.suc (ℕ.suc (ℕ.suc (ℕ.suc (ℕ.suc ℕ.zero)))))) = info
nth_level _ = debug

-- `RDKafkaLogLevel::from_int`, and `level as i32`.
unfoldable pub from_int : ℤ → LogLevel
from_int (pos n) = nth_level n
from_int n = debug

unfoldable pub to_int : LogLevel → ℤ
to_int emerg = pos 0
to_int alert = pos 1
to_int critical = pos 2
to_int error = pos 3
to_int warning = pos 4
to_int notice = pos 5
to_int info = pos 6
to_int debug = pos 7

-- A `HashMap<String, String>` in the order in which it is iterated.
abbrev pub ConfMap : Type 0
ConfMap = List (String × String)

unfoldable pub lookup : String → ConfMap → Option String
lookup k [] = none
lookup k ((j, v) ∷ m) = if str_eq j k then some v else lookup k m

unfoldable pub insert : String → String → ConfMap → ConfMap
insert key value [] = (key, value) ∷ []
insert key value (entry ∷ entries) =
    let later = insert key value entries in
    if str_eq entry.0 key then (key, value) ∷ entries else entry ∷ later

unfoldable pub without : String → ConfMap → ConfMap
without k [] = []
without k ((j, w) ∷ m) = let rest = without k m in if str_eq j k then rest else (j, w) ∷ rest

pub record ClientConfig : Type 0 where
  pub conf_map : ConfMap
  pub log_level : LogLevel

abbrev pub sensitive_config_keys : List String
sensitive_config_keys =
    "sasl.password" ∷ "ssl.key.password" ∷ "ssl.keystore.password" ∷ "ssl.truststore.password"
    ∷ "sasl.oauthbearer.client.secret" ∷ []

abbrev pub sanitized_value_placeholder : String
sanitized_value_placeholder = "[sanitized for safety]"

unfoldable pub contains : List String → String → Bool
contains [] k = false
contains (j ∷ js) k = str_eq j k || contains js k

abbrev pub is_sensitive : String → Bool
is_sensitive k = contains sensitive_config_keys k

-- What `Debug` prints of the map: the entries that are not sensitive.
unfoldable pub debug_map : ConfMap → ConfMap
debug_map [] = []
debug_map ((k, v) ∷ m) = let rest = debug_map m in if is_sensitive k then rest else (k, v) ∷ rest

-- `config_map`, as the pairs that `collect` puts into the BTreeMap.
unfoldable pub config_map : ConfMap → ConfMap
config_map [] = []
config_map ((k, v) ∷ m) =
    (k, if is_sensitive k then sanitized_value_placeholder else v) ∷ config_map m

unfoldable pub get : ClientConfig → String → Option String
get c key = lookup key c.conf_map

unfoldable pub set : ClientConfig → String → String → ClientConfig
set c key value = record c { conf_map = insert key value c.conf_map }

unfoldable pub remove : ClientConfig → String → ClientConfig
remove c key = record c { conf_map = without key c.conf_map }

unfoldable pub set_log_level : ClientConfig → LogLevel → ClientConfig
set_log_level c level = record c { log_level = level }

abbrev insert_all : List (String × String) → ConfMap → ConfMap
insert_all [] m = m
insert_all ((k, v) ∷ kvs) m = insert_all kvs (insert k v m)

-- `Extend`, and `FromIterator` over a new configuration.
unfoldable pub extend : ClientConfig → List (String × String) → ClientConfig
extend c kvs = record c { conf_map = insert_all kvs c.conf_map }

unfoldable pub log_level_from_global_config : Bool → Bool → Bool → LogLevel
log_level_from_global_config debug_enabled info_enabled warn_enabled =
    if debug_enabled
    then debug
    else if info_enabled
    then info
    else if warn_enabled
    then warning
    else error

-- `ClientConfig::new`, with what `log_enabled!` says of the three levels.
unfoldable pub new : Bool → Bool → Bool → ClientConfig
unfolding log_level_from_global_config
new d i w = record { conf_map = []; log_level = log_level_from_global_config d i w }

-- librdkafka's configuration object: `rd_kafka_conf_new` and `rd_kafka_conf_set`, whose result has
-- the text that it wrote to the error buffer.
pub record NativeConf : Type 1 where
  pub Conf : Type 0
  pub conf_new : Conf
  pub conf_set : Conf → String → String → Conf × ConfRes × String

module _ (native : NativeConf) where
  open native use {Conf, conf_new, conf_set}

  -- `NativeClientConfig::set`.
  unfoldable pub native_set : Conf → String → String → KafkaResult Conf
  unfolding cstring_new is_error_conf
  native_set conf key value = do
    key_c ← cstring_new key
    value_c ← cstring_new value
    let (conf', ret, text) = conf_set conf key_c value_c
    elim (is_error_conf ret) [ true ↦ err (client_config ret text key value) | false ↦ ok conf' ]

  -- The loop of `create_native_config`.
  abbrev pub set_each : Conf → ConfMap → KafkaResult Conf
  set_each conf [] = ok conf
  set_each conf ((k, v) ∷ m) = native_set conf k v >>= λ conf'. set_each conf' m

  unfoldable pub create_native_config : ClientConfig → KafkaResult Conf
  unfolding native_set
  create_native_config c = set_each conf_new c.conf_map
