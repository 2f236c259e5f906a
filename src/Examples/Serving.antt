-- ===== src/Examples/Serving.antt =====
-- The program with flags that watch no namespace, and with its defaults.
use nelm_operator.Base.{pos, true, false, some, failure, ok, err}
use nelm_operator.Startup.{Flags, RestConfig}
use nelm_operator.Startup.Main.{Program}
use nelm_operator.Examples.Watching.{Registered, manager}

abbrev pub rest_config : RestConfig
rest_config = record { base = "in-cluster"; qps = "5"; burst = pos 10; timeout = pos 0 }

-- The program started with flags that change the defaults so.
abbrev pub program_with : (Flags → Flags) → Program Registered
program_with parse = record {
  parse_flags = parse;
  getenv = λ name. "";
  float32 = λ n. "50";
  rest_config = some rest_config;
  everything = "";
  parse_selector = λ text. err (failure "bad selector");
  selector_matches = λ selector labels. true;
  new_manager = λ rest options w. (ok tt, w);
  manager = manager;
  add_healthz_check = λ w. (ok tt, w);
  add_readyz_check = λ w. (ok tt, w);
  start = λ w. (ok tt, w);
}

abbrev pub narrowed : Flags → Flags
narrowed flags = record flags { config = record flags.config { watch_all_namespaces = false } }
