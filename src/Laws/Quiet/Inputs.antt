-- ===== src/Laws/Quiet/Inputs.antt =====
-- The chart, the values, the options and the marker of an install are had by quiet calls.
use nelm_operator.Base.{ℕ, String, ℤ, Option, none, some, List, [], ◌∷◌}
use nelm_operator.Api.{Duration, ValuesReference, SecretKeyReference, ChartSourceRef}
use nelm_operator.Config.{OperatorConfig}
use nelm_operator.Options.{ResolvedValues}
use nelm_operator.Values
use nelm_operator.Artifact
use nelm_operator.World.{Env, Effect}
use nelm_operator.Controller
use nelm_operator.Controller.{Reconciler}
use nelm_operator.Laws.Keeps.{Keeps, OnTrace, trace_rules}
use nelm_operator.Laws.Quiet.{Quiet, patches_files-Keeps}

module _ (env : Env) {Q : List Effect → Type 0} (quiet : Quiet Q) where
  write_to_temp_file-Keeps :
      (text dir pattern : String)
      → Keeps (OnTrace Q) (Values.write_to_temp_file env text dir pattern)
  unfolding Values.write_to_temp_file
  write_to_temp_file-Keeps text dir pattern = search (trace_rules, quiet.cons) depth 12

  fetch_config_map_data-Keeps :
      (namespace name key : String)
      → Keeps (OnTrace Q) (Values.fetch_config_map_data env namespace name key)
  unfolding Values.fetch_config_map_data
  fetch_config_map_data-Keeps namespace name key = search (trace_rules, quiet.cons)

  fetch_secret_data-Keeps :
      (namespace name key : String)
      → Keeps (OnTrace Q) (Values.fetch_secret_data env namespace name key)
  unfolding Values.fetch_secret_data
  fetch_secret_data-Keeps namespace name key = search (trace_rules, quiet.cons)

  fetch_reference-Keeps :
      (namespace : String) (ref : ValuesReference)
      → Keeps (OnTrace Q) (Values.fetch_reference env namespace ref)
  unfolding Values.fetch_reference
  fetch_reference-Keeps namespace ref =
      search (trace_rules, fetch_config_map_data-Keeps, fetch_secret_data-Keeps)

  resolve_references-Keeps :
      (field pattern dir namespace : String) (i : ℕ) (refs : List ValuesReference)
      → Keeps (OnTrace Q) (Values.resolve_references env field pattern dir namespace i refs)
  unfolding Values.resolve_references
  resolve_references-Keeps field pattern dir namespace i [] = search trace_rules
  resolve_references-Keeps field pattern dir namespace i (ref ∷ refs) =
      let rest = λ (j : ℕ). resolve_references-Keeps field pattern dir namespace j refs in
      search (trace_rules, rest, fetch_reference-Keeps, write_to_temp_file-Keeps) depth 12

  resolve_inline-Keeps :
      (values : Option String) (dir : String)
      → Keeps (OnTrace Q) (Values.resolve_inline env values dir)
  unfolding Values.resolve_inline
  resolve_inline-Keeps none dir = search trace_rules
  resolve_inline-Keeps (some raw) dir = search (trace_rules, write_to_temp_file-Keeps)

  resolve_secret_key-Keeps :
      (namespace : String) (ref : Option SecretKeyReference)
      → Keeps (OnTrace Q) (Values.resolve_secret_key env namespace ref)
  unfolding Values.resolve_secret_key Values.fetch_secret_key
  resolve_secret_key-Keeps namespace none = search trace_rules
  resolve_secret_key-Keeps namespace (some ref) = search (trace_rules, fetch_secret_data-Keeps)

  resolve_keyring-Keeps :
      (dir namespace : String) (ref : Option SecretKeyReference)
      → Keeps (OnTrace Q) (Values.resolve_keyring env dir namespace ref)
  unfolding Values.resolve_keyring
  resolve_keyring-Keeps dir namespace none = search trace_rules
  resolve_keyring-Keeps dir namespace (some ref) =
      search (trace_rules, fetch_secret_data-Keeps, write_to_temp_file-Keeps)

  pub resolve-Keeps :
      (files : List String) (dir : String) → Keeps (OnTrace Q) (Values.resolve env files dir)
  unfolding Values.resolve
  resolve-Keeps files dir =
      search
        (
          trace_rules, resolve_inline-Keeps, resolve_references-Keeps, resolve_secret_key-Keeps,
          resolve_keyring-Keeps,
        )
        depth 14

  download_artifact-Keeps :
      (url dir : String) (retries : ℤ) (timeout : Duration)
      → Keeps (OnTrace Q) (Artifact.download_artifact env url dir retries timeout)
  unfolding Artifact.download_artifact
  download_artifact-Keeps url dir retries timeout = search (trace_rules, quiet.cons) depth 14

  extract_artifact-Keeps :
      (json : env.Json) (dir : String) (retries : ℤ) (timeout : Duration)
      → Keeps (OnTrace Q) (Artifact.extract_artifact env json dir retries timeout)
  unfolding Artifact.extract_artifact
  extract_artifact-Keeps json dir retries timeout =
      search (trace_rules, download_artifact-Keeps) depth 14

  pub fetch_chart-Keeps :
      (config : OperatorConfig) (ref : ChartSourceRef) (dir : String)
      → Keeps (OnTrace Q) (Artifact.fetch_chart env config ref dir)
  unfolding Artifact.fetch_chart
  fetch_chart-Keeps config ref dir =
      search (trace_rules, quiet.cons, extract_artifact-Keeps) depth 9

module _ (env : Env) (r : Reconciler) {Q : List Effect → Type 0} (quiet : Quiet Q) where
  build_runtime_options-Keeps :
      (dir : String) → Keeps (OnTrace Q) (Controller.build_runtime_options env r dir)
  unfolding Controller.build_runtime_options
  build_runtime_options-Keeps dir = search (trace_rules, patches_files-Keeps env r)

  pub build_plan_install_options-Keeps :
      (path dir : String) (resolved : ResolvedValues)
      → Keeps (OnTrace Q) (Controller.build_plan_install_options env r path dir resolved)
  unfolding Controller.build_plan_install_options
  build_plan_install_options-Keeps path dir resolved =
      search (trace_rules, build_runtime_options-Keeps)

  pub build_install_options-Keeps :
      (path dir : String) (resolved : ResolvedValues)
      → Keeps (OnTrace Q) (Controller.build_install_options env r path dir resolved)
  unfolding Controller.build_install_options
  build_install_options-Keeps path dir resolved = search (trace_rules, build_runtime_options-Keeps)

  pub build_rollback_options-Keeps :
      (dir : String) → Keeps (OnTrace Q) (Controller.build_rollback_options env r dir)
  unfolding Controller.build_rollback_options
  build_rollback_options-Keeps dir = search (trace_rules, patches_files-Keeps env r)

  pub build_uninstall_options-Keeps :
      (dir : String) → Keeps (OnTrace Q) (Controller.build_uninstall_options env r dir)
  unfolding Controller.build_uninstall_options
  build_uninstall_options-Keeps dir = search (trace_rules, patches_files-Keeps env r)

  pub stamp_ownership_marker-Keeps :
      (name namespace : String) (revision : ℤ)
      → Keeps (OnTrace Q) (Controller.stamp_ownership_marker env r name namespace revision)
  unfolding Controller.stamp_ownership_marker
  stamp_ownership_marker-Keeps name namespace revision = search (trace_rules, quiet.cons) depth 16
