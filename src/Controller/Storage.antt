-- ===== src/Controller/Storage.antt =====
-- Nelm's release storage, the status fields that mirror it, and the ownership marker.
use nelm_operator.Base.{
  String, ℤ, pos, eq_ℤ, ltb_ℤ, Bool, true, false, not, Option, none, some, [], ◌∷◌, read, str_eq,
  if◌then◌else◌, is_release_not_found, Result, ok, err,
}
use nelm_operator.Api.{ReleaseStatus, Condition}
use nelm_operator.Options.{
  ownership_marker_key, ownership_marker_value, build_kube_connection_options, release_get_options,
}
use nelm_operator.World.{
  Env, StoredRelease, Act, ◌>>=◌, ◌>>◌, check, pure, gets, call, leave, modify, set_status,
  wrapping, status_updated, storage_read, storage_opened, labels_stamped, event_emitted,
}
use nelm_operator.Controller.Returns.{Reconciler}

-- Whether the latest stored revision carries the marker.
unfoldable pub is_owned : StoredRelease → Bool
unfolding read
is_owned stored = str_eq (read ownership_marker_key stored.storage_labels) ownership_marker_value

-- `detectForeignChange`
unfoldable pub detect_foreign_change : ℤ → Option StoredRelease → Bool
unfolding eq_ℤ ltb_ℤ is_owned
detect_foreign_change recorded stored = if eq_ℤ recorded (pos 0) then false else elim stored [
  | none ↦ true
  | some release ↦ if ltb_ℤ recorded release.revision then true else not (is_owned release)
]

-- The fields that `projectStatusFromStorage` writes.
unfoldable pub project : Option StoredRelease → ReleaseStatus → ReleaseStatus
project none st = record st { revision = pos 0; revision_status = "" }
project (some current) st = record st {
  revision = current.revision;
  revision_status = current.status;
}

module _ (env : Env) where
  -- `r.Status().Update(ctx, rel)`; the answer is decoded into `rel`.
  unfoldable pub update_status : Act env (Result (Unit {0}))
  update_status = do
    rel ← gets (λ rel. rel)
    check (call (status_updated rel.status) (env.kube.update_status rel)) (λ e. pure (err e))
        λ stored. do modify (λ _. stored); pure (ok tt)

  -- `setCondition`
  unfoldable pub set_condition : Condition → ReleaseStatus → ReleaseStatus
  set_condition c st = record st { conditions = env.kube.set_status_condition c st.conditions }

module _ (env : Env) (r : Reconciler) where
  -- `getRelease`: a missing release is no error.
  unfoldable pub get_release : String → String → Act env (Result (Option StoredRelease))
  get_release name namespace = do
    options ← gets (release_get_options env.host.getenv env.host.join_host_port r.config)
    check (call storage_read (env.nelm.release_get name namespace options))
        (λ e. pure (if is_release_not_found e then ok none else err e))
        (λ stored. pure (ok (some stored)))

  -- `projectStatusFromStorage`: a failed read leaves the fields as they are.
  unfoldable pub project_status_from_storage :
      String → String → Option StoredRelease → Bool → Act env (Unit {0})
  unfolding project
  project_status_from_storage name namespace captured refetch =
      if refetch
      then check (get_release name namespace) (λ e. pure tt)
          (λ current. modify (set_status (project current)))
      else modify (set_status (project captured))

  -- `emitEvent`
  unfoldable pub emit_event : String → String → Act env (Unit {0})
  emit_event kind reason =
      if r.has_event_recorder then leave (event_emitted kind reason) (λ w. w) else pure tt

  -- `stampOwnershipMarker`
  unfoldable pub stamp_ownership_marker : String → String → ℤ → Act env (Result (Unit {0}))
  stamp_ownership_marker name namespace revision = do
    connection ←
        gets (build_kube_connection_options env.host.getenv env.host.join_host_port r.config)
    wrapping "construct kube config"
        (call (storage_opened "kube config") (env.nelm.new_kube_config connection namespace))
        λ kube_config.
          wrapping "construct kube client factory"
            (call (storage_opened "client factory") (env.nelm.new_client_factory kube_config))
            λ factory.
              wrapping "construct release storage"
                (call (storage_opened "release storage") (
                  env.nelm.new_release_storage namespace r.config.release_storage_driver factory
                    r.config.release_storage_sql_connection))
                λ storage.
                  wrapping "update release labels"
                    (call (labels_stamped revision) (
                      env.nelm.update_labels storage name revision
                        ((ownership_marker_key, ownership_marker_value) ∷ [])))
                    (λ _. pure (ok tt))
