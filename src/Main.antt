-- ===== src/Main.antt =====
-- src/main.cpp: the command line and main(). The daemon's initialization and its run are arguments, by
-- the configuration that it gets. What is printed is a value; colours and the texts of the help and of
-- the version are output.
pub mod Started
use edge_healthd.Prelude.{
  ℕ, Bool, true, false, ◌||◌, Option, none, some, List, [], ◌∷◌, ◌++◌, Str, str, str_eq,
  if◌then◌else◌,
}
use edge_healthd.Prelude.Double.{Double}
use edge_healthd.Config.{Config, defaults}
use edge_healthd.Config.Validate.{validate}
use edge_healthd.Config.Load.{ConfigFile, missing, unreadable, malformed, parsed, load, or_defaults}
use edge_healthd.Config.Load.Print.{to_json}
use edge_healthd.Json.{Json}
use edge_healthd.Json.Get.{Getters}
use edge_healthd.Log.{Level, debug, info, warn, error}

pub record Args : Type 0 where
  pub config_file : Str
  pub foreground : Bool
  pub verbose : Bool
  pub once : Bool
  pub dump_config : Bool
  pub help : Bool
  pub version : Bool

abbrev pub args_default : Args
args_default = record {
  config_file = str "/etc/edge/healthd.conf";
  foreground = false;
  verbose = false;
  once = false;
  dump_config = false;
  help = false;
  version = false;
}

unfoldable pub parse_log_level : Str → Level
parse_log_level level =
    if str_eq level (str "debug")
    then debug
    else if str_eq level (str "warn")
    then warn
    else if str_eq level (str "error")
    then error
    else info

abbrev pub is_either : Str → Str → Str → Bool
is_either arg short long = str_eq arg short || str_eq arg long

abbrev pub is_config : Str → Bool
is_config arg = is_either arg (str "-c") (str "--config")

-- The options that have no value; what is not known is ignored.
abbrev pub with_flag : Str → Args → Args
with_flag arg args =
    if is_either arg (str "-h") (str "--help")
    then record args { help = true }
    else if str_eq arg (str "--version")
    then record args { version = true }
    else if is_either arg (str "-f") (str "--foreground")
    then record args { foreground = true }
    else if is_either arg (str "-v") (str "--verbose")
    then record args { verbose = true }
    else if str_eq arg (str "--once")
    then record args { once = true }
    else if str_eq arg (str "--dump-config")
    then record args { dump_config = true }
    else args

-- The arguments after the program's name. A last `-c` has no value and is ignored.
unfoldable pub parse_args : List Str → Args → Args
parse_args [] args = args
parse_args (arg ∷ []) args = with_flag arg args
parse_args (arg ∷ next ∷ rest) args =
    let valued = parse_args rest (record args { config_file = next }) in
    let flagged = parse_args (next ∷ rest) (with_flag arg args) in
    if is_config arg then valued else flagged

-- What daemon.run() or collect_now() does.
pub data Ran : Type 0 where
  returned : ℕ → Ran
  threw : Str → Ran
  threw_other : Ran

pub data Printed (F : Type 0) : Type 0 where
  usage version : Printed F
  warning : Str → Printed F
  configuration_error : Str → Printed F
  configuration : Json F → Printed F
  initialization_failed : Str → Printed F
  fatal : Str → Printed F

-- The exit code, what is printed, and the configuration of the daemon, where there is one.
pub record Exit (F : Type 0) : Type 0 where
  pub code : ℕ
  pub printed : List (Printed F)
  pub started : Option (Config F)

module _ {F : Type 0} (fp : Double F) (get : Getters F) (temp_warn temp_crit : F) where
  -- The warning about the file, with the message of an exception.
  abbrev pub warning_about : Str → Str → ConfigFile F → Option (Config F) → List (Printed F)
  warning_about path what missing c =
      warning (str "Config file not found: " ++ (path ++ str "; using defaults")) ∷ []
  warning_about path what other (some c) = []
  warning_about path what other none =
      warning (
        str "Failed to load config file: "
        ++ (path ++ (str " (" ++ (what ++ str "); using defaults"))))
      ∷ []

  -- The options of the command line, over the file.
  abbrev pub with_args : Args → Config F → Config F
  with_args args c = record c {
    foreground = args.foreground;
    verbose = args.verbose;
    log_level = if args.verbose then str "debug" else c.log_level;
  }

  abbrev pub effective : Args → ConfigFile F → Config F
  effective args file =
      with_args args (or_defaults get temp_warn temp_crit (load get temp_warn temp_crit file))

  abbrev after_run : List (Printed F) → Config F → Bool → Ran → Exit F
  after_run warnings c once (returned code) = record {
    code = if once then 0 else code;
    printed = warnings;
    started = some c;
  }
  after_run warnings c once (threw what) = record {
    code = 1;
    printed = warnings ++ (fatal (str "Fatal: unhandled exception: " ++ what) ∷ []);
    started = some c;
  }
  after_run warnings c once threw_other = record {
    code = 1;
    printed = warnings ++ (fatal (str "Fatal: unhandled non-standard exception") ∷ []);
    started = some c;
  }

  -- initialize(), and then the run or the one collection.
  abbrev pub after_initialize : List (Printed F) → Config F → Bool → Option Str → Ran → Exit F
  after_initialize warnings c once (some message) ran = record {
    code = 1;
    printed = warnings ++ (initialization_failed message ∷ []);
    started = none;
  }
  after_initialize warnings c once none ran = after_run warnings c once ran

  abbrev pub after_dump : List (Printed F) → Config F → Bool → Bool → Option Str → Ran → Exit F
  after_dump warnings c true once initialized ran = record {
    code = 0;
    printed = warnings ++ (configuration (to_json c) ∷ []);
    started = none;
  }
  after_dump warnings c false once initialized ran =
      after_initialize warnings c once initialized ran

  abbrev pub after_validate :
      List (Printed F) → Config F → Args → Option Str → Option Str → Ran → Exit F
  after_validate warnings c args (some message) initialized ran = record {
    code = 1;
    printed = warnings ++ (configuration_error message ∷ []);
    started = none;
  }
  after_validate warnings c args none initialized ran =
      after_dump warnings c args.dump_config args.once initialized ran

  -- The help and the version come before all else.
  abbrev pub after_flags : Bool → Bool → Exit F → Exit F
  after_flags true wants_version exit = record { code = 0; printed = usage ∷ []; started = none }
  after_flags false true exit = record { code = 0; printed = version ∷ []; started = none }
  after_flags false false exit = exit

  -- `file` is what is at the path, `what` the message of the exception in loading it; `initialize`
  -- answers with its error, if there is one, and does not throw.
  unfoldable pub main :
      List Str
      → (Str → ConfigFile F)
      → Str
      → (Config F → Option Str)
      → (Config F → Ran)
      → (Config F → Ran)
      → Exit F
  unfolding parse_args
  main arguments file what initialize collect_now run =
      let args = parse_args arguments args_default in
      let c = effective args (file args.config_file) in
      let warnings =
        warning_about args.config_file what (file args.config_file)
          (load get temp_warn temp_crit (file args.config_file)) in
      after_flags args.help args.version (
        after_validate warnings c args (validate fp c) (initialize c)
          (if args.once then collect_now c else run c))
