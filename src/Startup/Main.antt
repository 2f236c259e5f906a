-- ===== src/Startup/Main.antt =====
-- The course of `main` behind the flags.
use nelm_operator.Base.{
  String, ℤ, Bool, not, Option, none, some, Dict, str_eq, if◌then◌else◌, Result, ok, err, failure,
}
use nelm_operator.Api.{Release, Foreign}
use nelm_operator.Config.{OperatorConfig}
use nelm_operator.Source.{SourceSpec}
use nelm_operator.Startup.{
  Flags, default_flags, load_config, RestConfig, limit_rest_config, ManagerOptions, manager_options,
}
use nelm_operator.Watches.Setup.{ControllerManager, setup_with_manager}

-- The code outside: `flag.Parse`, the environment, `ctrl.GetConfigOrDie` with `none` where it ends
-- the program, selectors of labels, and the manager, which is a part of the world.
pub record Program (World : Type 0) : Type 0 where
  pub parse_flags : Flags → Flags
  pub getenv : String → String
  pub float32 : ℤ → Foreign
  pub rest_config : Option RestConfig
  pub everything : Foreign
  pub parse_selector : String → Result Foreign
  pub selector_matches : Foreign → Dict String → Bool
  pub new_manager : RestConfig → ManagerOptions → World → Result (Unit {0}) × World
  pub manager : ControllerManager World
  pub add_healthz_check : World → Result (Unit {0}) × World
  pub add_readyz_check : World → Result (Unit {0}) × World
  pub start : World → Result (Unit {0}) × World

-- How the program ends: `main` returns, or it exits with status 1 behind a message of its own, or
-- `ctrl.GetConfigOrDie` ends it.
pub data Exit : Type 0 where
  returned : Exit
  exited : String → Exit
  without_config : Exit

-- The namespace filter of the cache.
unfoldable pub watched_namespace : OperatorConfig → Result (Option String)
watched_namespace config =
    if not (str_eq config.watch_namespace "")
    then ok (some config.watch_namespace)
    else if not config.watch_all_namespaces
    then err (failure "--watch-all-namespaces=false requires --watch-namespace to be set")
    else ok none

-- The label selector of dependencies.
unfoldable pub dependency_selector : Foreign → (String → Result Foreign) → String → Result Foreign
dependency_selector everything parse text = if str_eq text "" then ok everything else parse text

module _ {World : Type 0} where
  -- `if err := …; err != nil { …; os.Exit(1) }`
  abbrev pub or_exit : {A : Type 0} → String → World → (A → Exit × World) → Result A → Exit × World
  or_exit message w rest (ok a) = rest a
  or_exit message w rest (err e) = (exited message, w)

  -- The same of a call that changes the world.
  abbrev pub call_or_exit :
      String → (World → Exit × World) → Result (Unit {0}) × World → Exit × World
  call_or_exit message rest (ok u, w) = rest w
  call_or_exit message rest (err e, w) = (exited message, w)

  module _ (sha256_hex : String → String) (marshal_spec : SourceSpec → Result String)
      (is_ready is_reconciling : Release → Bool) (has_revision : String → String → Bool)
      (p : Program World) where
    -- From the manager to its end.
    unfoldable pub run_manager : RestConfig → Option String → OperatorConfig → World → Exit × World
    unfolding setup_with_manager
    run_manager rest namespace config w =
        call_or_exit "Failed to start manager"
          (λ w.
            call_or_exit "Failed to create controller"
              (λ w.
                call_or_exit "Failed to set up health check"
                  (λ w.
                    call_or_exit "Failed to set up ready check"
                      (λ w. call_or_exit "Failed to run manager" (λ w. (returned, w)) (p.start w))
                      (p.add_readyz_check w))
                  (p.add_healthz_check w))
              (setup_with_manager sha256_hex marshal_spec is_ready is_reconciling has_revision
                (p.selector_matches config.dependency_watch_label_selector) config p.manager w))
          (p.new_manager rest (manager_options config namespace) w)

    -- What the flags demand before there is a manager.
    unfoldable pub run_configured : Flags → RestConfig → World → Exit × World
    unfolding watched_namespace dependency_selector load_config limit_rest_config run_manager
    run_configured flags rest w =
        let config = load_config p.getenv flags in
        or_exit "--watch-all-namespaces=false requires --watch-namespace to be set" w
          (λ namespace.
            or_exit "failed to parse dependency-watch-label-selector" w
              (λ selector.
                run_manager (limit_rest_config p.float32 config rest) namespace
                  (record config { dependency_watch_label_selector = selector }) w)
              (dependency_selector p.everything p.parse_selector
                flags.dependency_watch_label_selector))
          (watched_namespace config)

    -- `ctrl.GetConfigOrDie`
    unfoldable pub run_with : Option RestConfig → Flags → World → Exit × World
    unfolding run_configured
    run_with none flags w = (without_config, w)
    run_with (some rest) flags w = run_configured flags rest w

    -- `main`
    unfoldable pub main : World → Exit × World
    unfolding run_with
    main w = run_with p.rest_config (p.parse_flags default_flags) w
