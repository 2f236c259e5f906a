-- ===== src/Examples/Cluster.antt =====
-- The services of a small cluster, for the code outside the repository. The world holds the
-- Release and one chart source.
use nelm_operator.Base.{
  ℕ, zero, suc, String, ◌<>◌, pos, Bool, false, Option, none, some, List, [], ◌∷◌, str_eq,
  if◌then◌else◌, not_found, resource_changes_planned, is_conflict, Result, ok, err,
}
use nelm_operator.Api.{Release, Condition}
use nelm_operator.World.{Env, Kube, Nelm, Host, Unstructured, StoredRelease}

pub record Cluster : Type 0 where
  pub release : Release
  pub source : Option (Unstructured (Unit {0}))

-- A condition replaces the one of its type, or goes behind the others.
unfoldable pub put_condition : Condition → List Condition → List Condition
put_condition c [] = c ∷ []
put_condition c (d ∷ conditions) =
    if str_eq d.type c.type then c ∷ conditions else d ∷ put_condition c conditions

abbrev pub is_conflicted : {A : Type 0} → Result A → Bool
is_conflicted (ok a) = false
is_conflicted (err e) = is_conflict e

-- At most so many runs behind the first.
unfoldable pub retry : {S : Type 0} → ℕ → (S → Result (Unit {0}) × S) → S → Result (Unit {0}) × S
retry zero f s = f s
retry (suc n) f s = let rest = retry n f (f s).1 in if is_conflicted (f s).0 then rest else f s

abbrev pub first_word : List String → String
first_word [] = ""
first_word (w ∷ words) = w

-- A text of the source's content: its Ready condition is true, and its artifact is at hand.
abbrev pub content_text : List String → String
content_text path =
    if str_eq (first_word path) "type"
    then "Ready"
    else if str_eq (first_word path) "status"
    then "True"
    else "chart"

abbrev pub kube : Kube Cluster (Unit {0})
kube = record {
  get_release = λ namespace name w. (ok w.release, w);
  update_status = λ rel w. (ok rel, record w { release = rel });
  patch_release = λ base rel w. (ok rel, record w { release = rel });
  get_object = λ key w. (
    elim w.source [ none ↦ err (not_found "gone") | some live ↦ ok (record live { key = key }) ],
    w,
  );
  create_source = λ obj w. (
    ok tt,
    record w {
      source = some (record {
        key = record {
          group = "source.toolkit.fluxcd.io";
          version = "v1";
          kind = obj.kind;
          namespace = obj.namespace;
          name = obj.name;
        };
        annotations = obj.annotations;
        resource_version = "1";
        uid = "u";
        content = tt;
      });
    },
  );
  update_object = λ live w. (ok live, record w { source = some live });
  delete_object = λ key conditions w. (ok tt, record w { source = none });
  apply_helm_chart = λ chart w. (ok tt, w);
  get_config_map = λ namespace name w. (ok (("values.yaml", "replicas: 2") ∷ []), w);
  get_secret = λ namespace name w. (ok (("values.yaml", "password: x") ∷ []), w);
  set_controller_reference = λ rel chart. ok chart;
  set_status_condition = put_condition;
  retry_on_conflict = λ S f s. retry 4 f s;
  nested_string = λ json path. ok (some (content_text path));
  nested_slice = λ json path. ok (some (some tt ∷ []));
  nested_string_slice = λ json path. ok none;
}

abbrev pub stored : StoredRelease
stored = record {
  revision = pos 4;
  status = "deployed";
  storage_labels = ("nelm.werf.io/owned-by", "nelm-operator") ∷ [];
}

abbrev pub nelm : Nelm Cluster
nelm = record {
  release_get = λ name namespace options w. (ok stored, w);
  release_plan_install =
      λ name namespace options w. ((some "plan", some (resource_changes_planned "changes")), w);
  release_install = λ name namespace options w. (ok tt, w);
  release_rollback = λ name namespace options w. (ok tt, w);
  release_uninstall = λ name namespace options w. (ok tt, w);
  new_kube_config = λ connection namespace w. (ok "config", w);
  new_client_factory = λ config w. (ok "factory", w);
  new_release_storage = λ namespace driver factory connection w. (ok "storage", w);
  update_labels = λ storage name revision labels w. (ok tt, w);
  default_validation_cache_lifetime = pos 0;
}

abbrev pub host : Host Cluster
host = record {
  getenv = λ name. "";
  join_host_port = λ host port. host <> (":" <> port);
  sha256_hex = λ text. "0123456789abcdef";
  marshal_spec = λ spec. ok "{}";
  marshal_patches = λ file. ok "{}";
  make_temp_dir = λ parent pattern w. (ok "/tmp/nelm", w);
  remove_all = λ dir w. w;
  create_temp = λ dir pattern w. (ok (dir <> ("/" <> pattern)), w);
  write_file = λ path text w. (ok tt, w);
  close_file = λ path w. (ok tt, w);
  remove_file = λ path w. w;
  fetch = λ url path retries timeout w. (ok (pos 200), w);
}

abbrev pub cluster : Env
cluster = record { World = Cluster; Json = Unit {0}; kube = kube; nelm = nelm; host = host }
