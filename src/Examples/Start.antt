-- ===== src/Examples/Start.antt =====
-- A start with a verbose option and no file, and a driver that answers with its speed. The state of
-- the kernel is the number of open sockets.
use edge_healthd.Prelude.{
  ℕ, ◌+◌, ◌-◌, ◌≡◌, refl, true, false, Option, none, some, List, [], ◌∷◌, Str, str, str_eq,
  if◌then◌else◌,
}
use edge_healthd.Prelude.Double.{milli}
use edge_healthd.Config.{Config, defaults}
use edge_healthd.Config.Validate.{validate}
use edge_healthd.Config.Load.{missing}
use edge_healthd.Main.{returned, args_default, parse_args, effective, main}
use edge_healthd.Main.Started.{main-started}
use edge_healthd.Network.Ethtool.{
  Genl, Request, get_family, linkmodes_get, Answer, more, stopped, refused, family_id, speed,
  duplex_code, other_attr, ethtool_query_links,
}
use edge_healthd.Network.Ethtool.Socket.{SocketLaws, ethtool_query_links-closed}
use edge_healthd.Types.Enums.{Duplex}
use edge_healthd.Examples.Documents.{getters}

abbrev arguments : List Str
arguments = str "-v" ∷ str "--config" ∷ str "/tmp/none" ∷ []

abbrev initialize : Config ℕ → Option Str
initialize c = none

abbrev verbose_defaults : Config ℕ
verbose_defaults = record (defaults 70000 85000) { verbose = true; log_level = str "debug" }

main_example :
    (main milli getters 70000 85000 arguments
      (λ path. missing)
      (str "")
      initialize
      (λ c. returned 0)
      (λ c. returned 0)).started
    ≡ some verbose_defaults
unfolding main parse_args validate str_eq str
main_example = refl

main-started_example :
    (effective milli getters 70000 85000 (parse_args arguments args_default) missing
      ≡ verbose_defaults)
    × (validate milli
          (effective milli getters 70000 85000 (parse_args arguments args_default) missing)
        ≡ none)
    × (initialize (effective milli getters 70000 85000 (parse_args arguments args_default) missing)
        ≡ none)
    × ((parse_args arguments args_default).help ≡ false)
    × ((parse_args arguments args_default).version ≡ false)
    × ((parse_args arguments args_default).dump_config ≡ false)
main-started_example =
    main-started milli getters 70000 85000 arguments (λ path. missing) (str "") initialize
      (λ c. returned 0) (λ c. returned 0) verbose_defaults main_example

-- The first interface has no driver to answer.
abbrev driver_answer : Request → Answer
driver_answer (get_family name) = more (family_id 21 ∷ []) (stopped [])
driver_answer (linkmodes_get family name) =
    if str_eq name (str "lo")
    then refused []
    else more (speed 1000 ∷ duplex_code 1 ∷ other_attr ∷ []) (stopped [])

abbrev driver : Genl ℕ
driver = record {
  open_socket = λ k. (k + 1, true);
  bind = λ k. (k, true);
  close = λ k. k - 1;
  send = λ request k. (k, some (driver_answer request));
}

driver_laws : SocketLaws driver (λ k. k)
driver_laws = record {
  open_lem = λ k. refl;
  bind_lem = λ k. refl;
  close_lem = λ k. refl;
  send_lem = λ request k. refl;
}

ethtool_query_links_example :
    (ethtool_query_links driver (str "lo" ∷ str "eth0" ∷ []) 3).1
    ≡ (str "eth0", record { speed_mbps = some 1000; duplex = some Duplex.full }) ∷ []
unfolding ethtool_query_links str_eq str
ethtool_query_links_example = refl

ethtool_query_links-closed_example :
    (ethtool_query_links driver (str "lo" ∷ str "eth0" ∷ []) 3).0 ≡ 3
ethtool_query_links-closed_example =
    ethtool_query_links-closed driver (λ k. k) driver_laws 3 (str "lo" ∷ str "eth0" ∷ []) 3 refl
