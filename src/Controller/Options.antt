-- ===== src/Controller/Options.antt =====
-- The option builders that write the patches file first.
use nelm_operator.Base.{
  String, ℤ, pos, true, false, not, ◌&&◌, none, some, List, [], ◌∷◌, is_nil, str_eq, if◌then◌else◌,
  wrap, Result, ok, err,
}
use nelm_operator.Api.{Release, Patch, install_timeout, rollback_timeout, uninstall_timeout}
use nelm_operator.Options.{
  KubeConnectionOptions, RuntimeOptions, ChartOptions, PlanInstallOptions, InstallOptions,
  RollbackOptions, UninstallOptions, ResolvedValues, ownership_labels,
  build_kube_connection_options, build_tracking_options, build_validation_options, spec_patches,
  build_values_options, build_secret_values_options, provenance_strategy,
  install_templates_allow_dns, typescript_ignore_bundle_js,
}
use nelm_operator.World.{Env, Act, ◌>>=◌, ◌>>◌, check, pure, gets, call, wrapping, file_used}
use nelm_operator.Controller.Returns.{Reconciler}

abbrev history_limit : Release → ℤ
history_limit rel = elim rel.spec.release_storage [
  | none ↦ pos 0
  | some storage ↦ storage.history_limit
]

module _ (env : Env) where
  -- `writePatchesFile`; the file is closed however the write ends, and an error of that is dropped.
  unfoldable pub write_patches_file : List Patch → List Patch → String → Act env (Result String)
  write_patches_file render diff temp_dir =
      if is_nil render && is_nil diff
      then pure (ok "")
      else check
          (pure (
            env.host.marshal_patches
              (record { render_patches = spec_patches render; diff_patches = spec_patches diff })))
          (λ e. pure (err (wrap "marshal patches" e)))
          λ text.
            wrapping "create temp file"
              (call (file_used "create") (env.host.create_temp temp_dir "patches-*.yaml"))
              λ file. do
                written ← call (file_used "write") (env.host.write_file file text)
                call (file_used "close") (env.host.close_file file)
                check (pure written) (λ e. pure (err (wrap "write temp file" e)))
                    (λ _. pure (ok file))

  -- `patchesFiles`
  unfoldable pub patches_files : List Patch → List Patch → String → Act env (Result (List String))
  patches_files render diff temp_dir =
      wrapping "write patches file" (write_patches_file render diff temp_dir)
        λ file. pure (ok (if str_eq file "" then [] else file ∷ []))

module _ (env : Env) (r : Reconciler) where
  abbrev connection : Release → KubeConnectionOptions
  connection = build_kube_connection_options env.host.getenv env.host.join_host_port r.config

  -- What `buildRuntimeOptions` returns once the patches files are written.
  unfoldable pub runtime_options : Release → List String → RuntimeOptions
  runtime_options rel files =
      let base : RuntimeOptions = record {
        validation = build_validation_options env.nelm.default_validation_cache_lifetime rel;
        extra_annotations = rel.spec.extra_annotations;
        extra_labels = rel.spec.extra_labels;
        extra_runtime_annotations = rel.spec.runtime_annotations;
        extra_runtime_labels = rel.spec.runtime_labels;
        release_info_annotations = rel.spec.release_info_annotations;
        release_labels = ownership_labels rel.spec.release_labels;
        release_storage_driver = r.config.release_storage_driver;
        release_storage_sql_connection = r.config.release_storage_sql_connection;
        release_history_limit = history_limit rel;
        patches_files = files;
        force_adoption = true;
        no_install_standalone_crds = false;
        default_delete_propagation = "";
        no_remove_manual_changes = false;
        default_patches_disable = false;
      } in
      elim rel.spec.install [
        | none ↦ base
        | some install ↦ record base {
          no_install_standalone_crds = install.no_install_crds;
          default_delete_propagation = install.delete_propagation;
          force_adoption = not install.no_force_adoption;
          no_remove_manual_changes = install.no_remove_manual_changes;
          default_patches_disable = install.no_default_patches;
        }
      ]

  -- `buildRuntimeOptions`
  unfoldable pub build_runtime_options : String → Act env (Result RuntimeOptions)
  build_runtime_options temp_dir = do
    rel ← gets (λ rel. rel)
    check (patches_files env rel.spec.render_patches rel.spec.diff_patches temp_dir)
        (λ e. pure (err e)) (λ files. pure (ok (runtime_options rel files)))

  -- The fields that the plan and the install have in common.
  unfoldable pub chart_options :
      Release → String → String → ResolvedValues → RuntimeOptions → ChartOptions
  chart_options rel chart_path temp_dir resolved runtime = record {
    connection = connection rel;
    runtime = runtime;
    values = build_values_options rel resolved;
    secret_values = build_secret_values_options rel resolved;
    chart = chart_path;
    chart_app_version = rel.spec.app_version;
    chart_provenance_keyring = resolved.provenance_keyring_path;
    chart_provenance_strategy = provenance_strategy rel;
    deno_binary_path = r.config.deno_binary_path;
    ignore_bundle_js = typescript_ignore_bundle_js rel;
    network_parallelism = r.config.network_parallelism;
    templates_allow_dns = install_templates_allow_dns rel;
    temp_dir_path = temp_dir;
    timeout = install_timeout rel;
  }

  -- `buildPlanInstallOptions`
  unfoldable pub build_plan_install_options :
      String → String → ResolvedValues → Act env (Result PlanInstallOptions)
  build_plan_install_options chart_path temp_dir resolved = do
    rel ← gets (λ rel. rel)
    check (build_runtime_options temp_dir) (λ e. pure (err e))
        λ runtime. pure (
          ok (record {
            shared = chart_options rel chart_path temp_dir resolved runtime;
            error_if_changes_planned = true;
          }))

  -- `buildInstallOptions`
  unfoldable pub build_install_options :
      String → String → ResolvedValues → Act env (Result InstallOptions)
  build_install_options chart_path temp_dir resolved = do
    rel ← gets (λ rel. rel)
    check (build_runtime_options temp_dir) (λ e. pure (err e))
        λ runtime. pure (
          ok (record {
            shared = chart_options rel chart_path temp_dir resolved runtime;
            tracking = build_tracking_options rel;
            legacy_plan_artifact = none;
            plan_artifact_lifetime = pos 0;
          }))

  -- What `buildRollbackOptions` returns once the patches files are written.
  unfoldable pub rollback_options : Release → String → List String → RollbackOptions
  rollback_options rel temp_dir files =
      let base : RollbackOptions = record {
        patches_files = files;
        connection = connection rel;
        validation = build_validation_options env.nelm.default_validation_cache_lifetime rel;
        tracking = build_tracking_options rel;
        release_storage_driver = r.config.release_storage_driver;
        release_storage_sql_connection = r.config.release_storage_sql_connection;
        network_parallelism = r.config.network_parallelism;
        temp_dir_path = temp_dir;
        timeout = rollback_timeout rel;
        extra_runtime_annotations = rel.spec.runtime_annotations;
        extra_runtime_labels = rel.spec.runtime_labels;
        release_info_annotations = rel.spec.release_info_annotations;
        release_labels = ownership_labels rel.spec.release_labels;
        release_history_limit = history_limit rel;
        force_adoption = true;
        default_delete_propagation = "";
        no_remove_manual_changes = false;
        default_patches_disable = false;
        revision = pos 0;
      } in
      elim rel.spec.rollback [
        | none ↦ base
        | some rollback ↦ record base {
          default_delete_propagation = rollback.delete_propagation;
          force_adoption = not rollback.no_force_adoption;
          no_remove_manual_changes = rollback.no_remove_manual_changes;
          default_patches_disable = rollback.no_default_patches;
        }
      ]

  -- `buildRollbackOptions`
  unfoldable pub build_rollback_options : String → Act env (Result RollbackOptions)
  build_rollback_options temp_dir = do
    rel ← gets (λ rel. rel)
    check (patches_files env [] rel.spec.diff_patches temp_dir) (λ e. pure (err e))
        (λ files. pure (ok (rollback_options rel temp_dir files)))

  -- What `buildUninstallOptions` returns once the patches files are written.
  unfoldable pub uninstall_options : Release → String → List String → UninstallOptions
  uninstall_options rel temp_dir files =
      let base : UninstallOptions = record {
        patches_files = files;
        connection = connection rel;
        tracking = build_tracking_options rel;
        release_storage_driver = r.config.release_storage_driver;
        release_storage_sql_connection = r.config.release_storage_sql_connection;
        network_parallelism = r.config.network_parallelism;
        temp_dir_path = temp_dir;
        timeout = uninstall_timeout rel;
        release_history_limit = history_limit rel;
        delete_release_namespace = false;
        default_delete_propagation = "";
        no_remove_manual_changes = false;
        default_patches_disable = false;
      } in
      elim rel.spec.uninstall [
        | none ↦ base
        | some uninstall ↦ record base {
          delete_release_namespace = uninstall.delete_namespace;
          default_delete_propagation = uninstall.delete_propagation;
          no_remove_manual_changes = uninstall.no_remove_manual_changes;
          default_patches_disable = uninstall.no_default_patches;
        }
      ]

  -- `buildUninstallOptions`
  unfoldable pub build_uninstall_options : String → Act env (Result UninstallOptions)
  build_uninstall_options temp_dir = do
    rel ← gets (λ rel. rel)
    check (patches_files env [] rel.spec.diff_patches temp_dir) (λ e. pure (err e))
        (λ files. pure (ok (uninstall_options rel temp_dir files)))
