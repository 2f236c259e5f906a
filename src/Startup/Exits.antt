-- ===== src/Startup/Exits.antt =====
-- When the program serves, and what it refuses to start with.
use nelm_operator.Base.{
  String, ◌≡◌, refl, subst, ap, ◌∙◌, ◌↔◌, Bool, true, false, Option, none, some, str_eq, Error,
  Result, ok, err,
}
use nelm_operator.Api.{Release, Foreign}
use nelm_operator.Config.{OperatorConfig}
use nelm_operator.Source.{SourceSpec}
use nelm_operator.Startup.{
  Flags, default_flags, load_config, RestConfig, limit_rest_config, manager_options,
}
use nelm_operator.Startup.Main.{
  Program, Exit, returned, exited, without_config, watched_namespace, dependency_selector, or_exit,
  call_or_exit, run_manager, run_configured, run_with, main,
}
use nelm_operator.Watches.Setup.{setup_with_manager}

-- An exit is no return.
Unless : Type 0 → Exit → Type 0
Unless P returned = P
Unless P (exited message) = Unit
Unless P without_config = Unit

module _ {World : Type 0} where
  call_or_exit-passed :
      (message : String) (rest : World → Exit × World) (first : Result (Unit {0}) × World)
      (w' : World) (P : Type 0)
      → call_or_exit message rest first ≡ (returned, w')
      → ((u : Unit {0}) (w : World) → first ≡ (ok u, w) → rest w ≡ (returned, w') → P)
      → P
  unfolding Unless
  call_or_exit-passed message rest (ok u, w) w' P q k = k u w refl q
  call_or_exit-passed message rest (err e, w) w' P q k = subst (λ out. Unless P out.0) q tt

  or_exit-passed :
      {A : Type 0} (message : String) (w : World) (rest : A → Exit × World) (first : Result A)
      (w' : World) (P : Type 0)
      → or_exit message w rest first ≡ (returned, w')
      → ((a : A) → first ≡ ok a → rest a ≡ (returned, w') → P)
      → P
  unfolding Unless
  or_exit-passed message w rest (ok a) w' P q k = k a refl q
  or_exit-passed message w rest (err e) w' P q k = subst (λ out. Unless P out.0) q tt

  module _ (sha256_hex : String → String) (marshal_spec : SourceSpec → Result String)
      (is_ready is_reconciling : Release → Bool) (has_revision : String → String → Bool)
      (p : Program World) where
    abbrev flags : Flags
    flags = p.parse_flags default_flags

    abbrev pub loaded : OperatorConfig
    unfolding load_config
    loaded = load_config p.getenv flags

    abbrev pub selected : Foreign → OperatorConfig
    selected selector = record loaded { dependency_watch_label_selector = selector }

    -- The manager served: every step from the configuration to the end of `Start` succeeded.
    pub record Serves (w w' : World) : Type 0 where
      pub rest : RestConfig
      pub namespace : Option String
      pub selector : Foreign
      pub w1 : World
      pub w2 : World
      pub w3 : World
      pub w4 : World
      pub configured : p.rest_config ≡ some rest
      pub watched : watched_namespace loaded ≡ ok namespace
      pub parsed :
          dependency_selector p.everything p.parse_selector flags.dependency_watch_label_selector
          ≡ ok selector
      pub managed :
          p.new_manager
            (limit_rest_config p.float32 loaded rest)
            (manager_options (selected selector) namespace)
            w
          ≡ (ok tt, w1)
      pub controlled :
          setup_with_manager sha256_hex marshal_spec is_ready is_reconciling has_revision
            (p.selector_matches selector)
            (selected selector)
            p.manager
            w1
          ≡ (ok tt, w2)
      pub healthy : p.add_healthz_check w2 ≡ (ok tt, w3)
      pub ready : p.add_readyz_check w3 ≡ (ok tt, w4)
      pub started : p.start w4 ≡ (ok tt, w')

    abbrev program : World → Exit × World
    program = main sha256_hex marshal_spec is_ready is_reconciling has_revision p

    main-Serves : (w w' : World) → program w ≡ (returned, w') → Serves w w'
    unfolding main run_with run_configured run_manager load_config Unless
    main-Serves w w' q = after p.rest_config refl q
      where
        after :
            (given : Option RestConfig)
            → p.rest_config ≡ given
            → run_with sha256_hex marshal_spec is_ready is_reconciling has_revision p given flags w
              ≡ (returned, w')
            → Serves w w'
        after none a q = subst (λ out. Unless (Serves w w') out.0) q tt
        after (some rest) a q =
            or_exit-passed _ w _ (watched_namespace loaded) w' _ q λ namespace b q.
              or_exit-passed _ w _ _ w' _ q λ selector c q.
                call_or_exit-passed _ _ _ w' _ q λ _ w1 d q.
                  call_or_exit-passed _ _ _ w' _ q λ _ w2 e q.
                    call_or_exit-passed _ _ _ w' _ q λ _ w3 f q.
                      call_or_exit-passed _ _ _ w' _ q λ _ w4 g q.
                        call_or_exit-passed _ _ _ w' _ q λ _ w5 h q. record {
                          rest = rest;
                          namespace = namespace;
                          selector = selector;
                          w1 = w1;
                          w2 = w2;
                          w3 = w3;
                          w4 = w4;
                          configured = a;
                          watched = b;
                          parsed = c;
                          managed = d;
                          controlled = e;
                          healthy = f;
                          ready = g;
                          started = h ∙ ap (λ out. (ok tt, out.1)) q;
                        }

    Serves-main : (w w' : World) → Serves w w' → program w ≡ (returned, w')
    unfolding main run_with run_configured run_manager load_config Unless
    Serves-main w w' h =
        rw
          (
            h.configured, h.watched, h.parsed, h.managed, h.controlled, h.healthy, h.ready,
            h.started,
          )
          refl

    -- What `main` refuses, with the message of its exit.
    pub data Refuses : String → Type 0 where
      no_namespace :
          str_eq flags.config.watch_namespace "" ≡ true
          → flags.config.watch_all_namespaces ≡ false
          → Refuses "--watch-all-namespaces=false requires --watch-namespace to be set"
      no_selector :
          (namespace : Option String) (e : Error)
          → watched_namespace loaded ≡ ok namespace
          → str_eq flags.dependency_watch_label_selector "" ≡ false
          → p.parse_selector flags.dependency_watch_label_selector ≡ err e
          → Refuses "failed to parse dependency-watch-label-selector"

-- `main` returns exactly if there is a kubeconfig, the flags name a namespace or all of them, the
-- label selector is parsed, and the calls that make the manager with the configuration of the flags
-- and the environment, set up the controller with that configuration, add the two checks and start
-- the manager succeed in this order. In all other cases the program exits with an error.
pub main_iff :
    {World : Type 0} (sha256_hex : String → String) (marshal_spec : SourceSpec → Result String)
    (is_ready is_reconciling : Release → Bool) (has_revision : String → String → Bool)
    (p : Program World) (w w' : World)
    → (main sha256_hex marshal_spec is_ready is_reconciling has_revision p w ≡ (returned, w'))
      ↔ Serves sha256_hex marshal_spec is_ready is_reconciling has_revision p w w'
main_iff sha256_hex marshal_spec is_ready is_reconciling has_revision p w w' = (
  main-Serves sha256_hex marshal_spec is_ready is_reconciling has_revision p w w',
  Serves-main sha256_hex marshal_spec is_ready is_reconciling has_revision p w w',
)
