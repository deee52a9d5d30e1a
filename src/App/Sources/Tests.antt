-- ===== src/App/Sources/Tests.antt =====
-- A configuration file that sets max-bytes, and an environment and flags over it.
use go_e_bpf_proxy.Base.{
  ◌≡◌, ◌≢◌, subst, All, All-In, refl, ◌∙◌, true, false, Option, none, some, List, [], ◌∷◌, ◌++◌,
  Bytes, codes, pos,
}
use go_e_bpf_proxy.FilePath.{ext, has_slash}
use go_e_bpf_proxy.App.Settings.{
  parser_for, Datum, text, number, int, env_key, key_bytes, key_byte, trim_prefix,
}
use go_e_bpf_proxy.App.Sources.{
  load_file, config_path, require, find_flag, to_lower, merge, finish, first_nil, is_nil, env_entry,
  skip_config_flag, Flag, config_flag, Layer, Koanf, loaded, refused, no_value, load_config,
}
use go_e_bpf_proxy.App.Sources.Documented.{
  lookup, or_else, has_dot, starts_with, FromVar, FromFlag, Documented,
}
use go_e_bpf_proxy.App.Sources.Effective.{IsRegistered, DotlessEnv, names}
use go_e_bpf_proxy.App.Sources.Outcome.{Ended, load_config-Ended}
use go_e_bpf_proxy.App.Sources.Table.{
  add, flags_under, is_wanted, is_none, table_keys, lookup-append, table_keys-nil, env_table,
  env_table-FromVar, env_table-all, flag_table, flag_table-FromFlag, flag_table-all,
}

-- The file at any path gives the same layer.
abbrev table : Layer → Koanf Layer
table file = record {
  empty = [];
  load = λ k m. m ++ k;
  get = λ k key. lookup key k;
  keys = table_keys;
  read_file = λ path p. some file;
  read_env = λ prefix f environ. some (env_table prefix f environ);
  read_flags = λ fs f k. some (flag_table fs f (λ key. lookup key k));
}

some_injective {ℓ} : {A : Type ℓ} {a b : A} → some a ≡ some b → a ≡ b
some_injective h = cc

or_else-none {ℓ} : {A : Type ℓ} (a : Option A) → or_else a none ≡ a
unfolding or_else
or_else-none none = refl
or_else-none (some a) = refl

table-Documented : (file : Layer) → Documented (table file)
unfolding lookup or_else
table-Documented file = record {
  get_empty = λ key. refl;
  get_first = λ m key plain. lookup-append key m [] ∙ or_else-none (lookup key m);
  get_load = λ k m key plain dot. lookup-append key m k;
  lists_nil = λ k key h. table_keys-nil key k h;
  env_entries = λ prefix f environ {m} h.
      subst (All (FromVar prefix f environ)) (some_injective h)
        (env_table-FromVar prefix f environ);
  env_all = λ prefix f environ {m} h {e} v ne.
      subst (λ x. lookup e.0 x ≢ none) (some_injective h) (env_table-all prefix f environ v ne);
  flag_entries = λ fs f k {m} h.
      subst (All (FromFlag fs f (λ key. lookup key k))) (some_injective h)
        (flag_table-FromFlag fs f (λ key. lookup key k));
  flag_all = λ fs f k {m} h {e} v.
      subst (λ x. lookup e.0 x ≢ none) (some_injective h)
        (flag_table-all fs f (λ key. lookup key k) v);
}

abbrev unset : Bytes → Flag
unset name = record { name = name; value = codes "0"; is_set = false }

abbrev stats_set : Flag
stats_set = record { name = codes "stats-interval"; value = codes "1h0m0s"; is_set = true }

-- `--stats-interval=1h --config=c.json`
abbrev flags : List Flag
flags =
    unset (codes "cgroup-path")
    ∷ unset (codes "relay-listen")
    ∷ unset (codes "pin-dir")
    ∷ unset (codes "keylog-socket")
    ∷ unset (codes "keylog-path")
    ∷ unset (codes "capture-iface")
    ∷ unset (codes "capture-path")
    ∷ unset (codes "retain")
    ∷ unset (codes "max-bytes")
    ∷ unset (codes "max-age")
    ∷ unset (codes "retention-interval")
    ∷ stats_set
    ∷ unset (codes "log-level")
    ∷ (record { name = config_flag; value = codes "c.json"; is_set = true })
    ∷ []

abbrev max_bytes_set : Layer
max_bytes_set = (codes "max-bytes", some (number (int (pos 4096)))) ∷ []

abbrev environ : List (Bytes × Bytes)
environ =
    (codes "GOEBPF_SIDECAR_MAX_AGE", codes "2h")
    ∷ (codes "GOEBPF_SIDECAR_STATS_INTERVAL", codes "3h")
    ∷ []

environ_dotless : DotlessEnv environ
unfolding has_dot env_key key_bytes key_byte trim_prefix
environ_dotless key value (name, member, prefixed, same) =
    subst (λ k. has_dot k ≡ false) same
      (All-In (λ v. has_dot (env_key v.0) ≡ false) environ (refl, (refl, tt)) member)

flags-IsRegistered : IsRegistered flags
unfolding names
flags-IsRegistered = refl

-- What the three intervals and the limit are in the merged configuration.
abbrev shown : Layer → Option (List (Option (Option Datum)))
shown k = some (
    lookup (codes "max-bytes") k
    ∷ lookup (codes "max-age") k
    ∷ lookup (codes "stats-interval") k
    ∷ [])

load_config-Ended_example :
    Ended
      (table max_bytes_set)
      shown
      flags
      environ
      (load_config (table max_bytes_set) shown (some flags) environ)
load_config-Ended_example =
    load_config-Ended (table-Documented max_bytes_set) shown flags environ flags-IsRegistered
      environ_dotless

-- The file, the environment and a set flag, each over the sources before.
load_config_run :
    load_config (table max_bytes_set) shown (some flags) environ
    ≡ loaded (
        some (some (number (int (pos 4096))))
        ∷ some (some (text (codes "2h")))
        ∷ some (some (text (codes "1h0m0s")))
        ∷ [])
unfolding load_config load_file config_path require find_flag to_lower ext has_slash parser_for
    merge env_table flag_table finish first_nil is_nil lookup names env_entry skip_config_flag
    env_key key_bytes key_byte trim_prefix starts_with table_keys add flags_under is_wanted is_none
load_config_run = refl

-- `"max-bytes": null` is refused, unless a later source gives a value.
no_value_run :
    load_config (table ((codes "max-bytes", none) ∷ [])) shown (some flags) environ
    ≡ refused (no_value (codes "max-bytes"))
unfolding load_config load_file config_path require find_flag to_lower ext has_slash parser_for
    merge env_table flag_table finish first_nil is_nil lookup names env_entry skip_config_flag
    env_key key_bytes key_byte trim_prefix starts_with table_keys add flags_under is_wanted is_none
no_value_run = refl
