-- ===== src/Main/Started.antt =====
-- With what the daemon is started.
use edge_healthd.Prelude.{
  ◌≡◌, refl, Bool, true, false, Option, none, some, List, Str, if◌then◌else◌, arith,
}
use edge_healthd.Prelude.Double.{Double}
use edge_healthd.Config.{Config}
use edge_healthd.Config.Validate.{validate}
use edge_healthd.Config.Load.{ConfigFile, load}
use edge_healthd.Json.Get.{Getters}
use edge_healthd.Main.{
  Args, Ran, returned, threw, threw_other, Printed, Exit, args_default, parse_args, effective,
  after_run, after_initialize, after_validate, after_dump, after_flags, main, warning_about,
}

module _ {F : Type 0} (fp : Double F) (get : Getters F) (temp_warn temp_crit : F) where
  after_run-started :
      (warnings : List (Printed F)) (c d : Config F) (once : Bool) (ran : Ran)
      → (after_run fp get temp_warn temp_crit warnings c once ran).started ≡ some d
      → c ≡ d
  after_run-started warnings c d once (returned code) e = ground (arith, e)
  after_run-started warnings c d once (threw what) e = ground (arith, e)
  after_run-started warnings c d once threw_other e = ground (arith, e)

  after_initialize-started :
      (warnings : List (Printed F)) (c d : Config F) (once : Bool) (initialized : Option Str)
      (ran : Ran)
      → (after_initialize fp get temp_warn temp_crit warnings c once initialized ran).started
        ≡ some d
      → (c ≡ d) × (initialized ≡ none)
  after_initialize-started warnings c d once none ran e =
      (after_run-started warnings c d once ran e, refl)
  after_initialize-started warnings c d once (some message) ran e = absurd (ground (arith, e))

  after_dump-started :
      (warnings : List (Printed F)) (c d : Config F) (dump once : Bool) (initialized : Option Str)
      (ran : Ran)
      → (after_dump fp get temp_warn temp_crit warnings c dump once initialized ran).started
        ≡ some d
      → (c ≡ d) × (initialized ≡ none) × (dump ≡ false)
  after_dump-started warnings c d true once initialized ran e = absurd (ground (arith, e))
  after_dump-started warnings c d false once initialized ran e =
      let q = after_initialize-started warnings c d once initialized ran e in (q.0, q.1, refl)

  after_validate-started :
      (warnings : List (Printed F)) (c d : Config F) (args : Args)
      (validated initialized : Option Str) (ran : Ran)
      → (after_validate fp get temp_warn temp_crit warnings c args validated initialized
          ran).started
        ≡ some d
      → (c ≡ d) × (validated ≡ none) × (initialized ≡ none) × (args.dump_config ≡ false)
  after_validate-started warnings c d args (some message) initialized ran e =
      absurd (ground (arith, e))
  after_validate-started warnings c d args none initialized ran e =
      let q = after_dump-started warnings c d args.dump_config args.once initialized ran e in
      (q.0, refl, q.1, q.2)

  after_flags-started :
      (wants_help wants_version : Bool) (exit : Exit F) (d : Config F)
      → (after_flags fp get temp_warn temp_crit wants_help wants_version exit).started ≡ some d
      → (exit.started ≡ some d) × (wants_help ≡ false) × (wants_version ≡ false)
  after_flags-started true wants_version exit d e = absurd (ground (arith, e))
  after_flags-started false true exit d e = absurd (ground (arith, e))
  after_flags-started false false exit d e = (e, refl, refl)

  -- A daemon is started only with a configuration that validate() accepts and initialize() takes: that
  -- of the file, or the defaults where it cannot be loaded, with the options of the command line over
  -- it. Neither help nor a version nor a dump of the configuration was asked for.
  pub main-started :
      (arguments : List Str) (file : Str → ConfigFile F) (what : Str)
      (initialize : Config F → Option Str) (collect_now run : Config F → Ran) (c : Config F)
      → (main fp get temp_warn temp_crit arguments file what initialize collect_now run).started
        ≡ some c
      → let args = parse_args arguments args_default in
        let given = effective fp get temp_warn temp_crit args (file args.config_file) in
        (given ≡ c)
        × (validate fp given ≡ none)
        × (initialize given ≡ none)
        × (args.help ≡ false)
        × (args.version ≡ false)
        × (args.dump_config ≡ false)
  unfolding main
  main-started arguments file what initialize collect_now run c e =
      let args = parse_args arguments args_default in
      let given = effective fp get temp_warn temp_crit args (file args.config_file) in
      let warnings =
        warning_about fp get temp_warn temp_crit args.config_file what (file args.config_file)
          (load get temp_warn temp_crit (file args.config_file)) in
      let exit =
        after_validate fp get temp_warn temp_crit warnings given args (validate fp given)
          (initialize given) (if args.once then collect_now given else run given) in
      let flags = after_flags-started args.help args.version exit c e in
      let q =
        after_validate-started warnings given c args (validate fp given) (initialize given)
          (if args.once then collect_now given else run given) flags.0 in
      (q.0, q.1, q.2, flags.1, flags.2, q.3)
