-- ===== src/Access.antt =====
-- Whom the operator acts as, and which release storage it uses, in every call of Nelm for a Release:
-- the option builders of internal/controller/release_controller.go.
use nelm_operator.Base.{String, ◌≡◌, Error, Result, ok, err}
use nelm_operator.Api.{Release}
use nelm_operator.Options.{
  KubeConnectionOptions, ReleaseGetOptions, release_get_options, PlanInstallOptions, InstallOptions,
  RollbackOptions, UninstallOptions, RuntimeOptions,
}
use nelm_operator.World.{Env, State}
use nelm_operator.Controller
use nelm_operator.Controller.{Reconciler}

-- The connection to the cluster and the release storage.
pub record Access : Type 0 where
  pub connection : KubeConnectionOptions
  pub driver : String
  pub sql_connection : String

abbrev pub read_access : ReleaseGetOptions → Access
read_access o = record {
  connection = o.connection;
  driver = o.release_storage_driver;
  sql_connection = o.release_storage_sql_connection;
}

abbrev pub plan_access : PlanInstallOptions → Access
plan_access o = record {
  connection = o.shared.connection;
  driver = o.shared.runtime.release_storage_driver;
  sql_connection = o.shared.runtime.release_storage_sql_connection;
}

abbrev pub install_access : InstallOptions → Access
install_access o = record {
  connection = o.shared.connection;
  driver = o.shared.runtime.release_storage_driver;
  sql_connection = o.shared.runtime.release_storage_sql_connection;
}

abbrev pub rollback_access : RollbackOptions → Access
rollback_access o = record {
  connection = o.connection;
  driver = o.release_storage_driver;
  sql_connection = o.release_storage_sql_connection;
}

abbrev pub uninstall_access : UninstallOptions → Access
uninstall_access o = record {
  connection = o.connection;
  driver = o.release_storage_driver;
  sql_connection = o.release_storage_sql_connection;
}

-- Options that are built have this access.
pub data Grants {env : Env} {O : Type 0} (access : O → Access) (a : Access)
    : Result O × State env → Type 0 where
  grants : (o : O) (s : State env) → access o ≡ a → Grants access a (ok o, s)
  refuses : (e : Error) (s : State env) → Grants access a (err e, s)

module _ (env : Env) (r : Reconciler) where
  abbrev pub access_of : Release → Access
  unfolding release_get_options
  access_of rel =
      read_access (release_get_options env.host.getenv env.host.join_host_port r.config rel)

  abbrev RunsWith : Release → RuntimeOptions → Type 0
  RunsWith rel o =
      (o.release_storage_driver ≡ r.config.release_storage_driver)
      × (o.release_storage_sql_connection ≡ r.config.release_storage_sql_connection)

  data Builds (rel : Release) : Result RuntimeOptions × State env → Type 0 where
    runs : (o : RuntimeOptions) (s : State env) → RunsWith rel o → Builds rel (ok o, s)
    stops : (e : Error) (s : State env) → Builds rel (err e, s)
