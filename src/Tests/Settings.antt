-- ===== src/Tests/Settings.antt =====
-- Configuration.
use Prim.Native.String.{String}
use solusek.Base.{◌≤◌, [], ◌∷◌, ◌≡◌, refl, arith, some, Bytes, codes, c_str}
use solusek.Config.{
  ConfigNode, node, ConfigNodes, nil, cons, load_config, get_config, strip_front, strip_back,
  unquote,
}
use solusek.Config.Printed.{IsSetting, AllSettings, nodes_text}
use solusek.Config.Nested.{load_config-text}
use solusek.Config.Paths.{path_text, value_at, unquoted, get_config-path}
use solusek.Config.Total.{newlines, load_config_total}

abbrev setting : String → String → ConfigNodes → ConfigNode
setting name val kids = node (codes name) (codes val) kids

abbrev settings : ConfigNodes
settings =
    cons
      (setting "server" ""
        (cons (setting "host" "\"my host\"" nil) (cons (setting "port" "8080" nil) nil)))
      (cons (setting "log" "on" nil) nil)

settings_printed :
    nodes_text 1 0 settings ≡ codes "server: \n  host: \"my host\"\n  port: 8080\nlog: on\n"
settings_printed = refl

settings-AllSettings : AllSettings settings
unfolding strip_front strip_back
settings-AllSettings = (server, (host, tt, (port, tt, tt)), (log, tt, tt))
  where
    server : IsSetting (codes "server") []
    server = record {
      flush = refl;
      name_line = ground arith;
      name_word = ground arith;
      name_stripped = (refl, refl);
      value_line = tt;
      value_stripped = (refl, refl);
    }

    host : IsSetting (codes "host") (codes "\"my host\"")
    host = record {
      flush = refl;
      name_line = ground arith;
      name_word = ground arith;
      name_stripped = (refl, refl);
      value_line = ground arith;
      value_stripped = (refl, refl);
    }

    port : IsSetting (codes "port") (codes "8080")
    port = record {
      flush = refl;
      name_line = ground arith;
      name_word = ground arith;
      name_stripped = (refl, refl);
      value_line = ground arith;
      value_stripped = (refl, refl);
    }

    log : IsSetting (codes "log") (codes "on")
    log = record {
      flush = refl;
      name_line = ground arith;
      name_word = ground arith;
      name_stripped = (refl, refl);
      value_line = ground arith;
      value_stripped = (refl, refl);
    }

load_config-text_example : load_config 20 0 (nodes_text 1 0 settings) ≡ some (settings, [])
load_config-text_example =
    load_config-text 20 0 1 settings (ground arith) settings-AllSettings (ground arith)
      (ground arith)

get_config-path_example :
    get_config settings (path_text (codes "server") (codes "host" ∷ []))
    ≡ unquoted (value_at settings (codes "server") (codes "host" ∷ []))
get_config-path_example =
    get_config-path settings (codes "server") (codes "host" ∷ []) (ground arith)

host_value : unquoted (value_at settings (codes "server") (codes "host" ∷ [])) ≡ codes "my host"
unfolding unquote
host_value = refl

abbrev steps_back : Bytes
steps_back = codes "a: 1\n    b: 2\n  c: 3\nd\n\t:"

load_config_total_example :
    (r : ConfigNodes × Bytes) × (load_config 9 0 steps_back ≡ some r)
    × (newlines r.1 ≤ newlines (c_str steps_back))
load_config_total_example = load_config_total 9 0 steps_back (ground arith) (ground arith)
