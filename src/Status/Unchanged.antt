-- ===== src/Status/Unchanged.antt =====
-- What the calls in the middle of `handleSuccess` and `handleFailure` leave of the Release: the
-- spec, the generation, the count of failures and the conditions' place.
use nelm_operator.Base.{String, ℤ, Bool, Option, none, some, List, ◌≡◌}
use nelm_operator.Api.{Release, ReleaseSpec, Patch}
use nelm_operator.World.{Env, StoredRelease, set_status}
use nelm_operator.Controller
use nelm_operator.Controller.{Reconciler, with_temp_dir}
use nelm_operator.Laws.Keeps.{Keeps, OnRel, rel_rules}

-- A Release with these.
pub record Fixed (spec : ReleaseSpec) (generation failures observed : ℤ) (rel : Release)
    : Type 0 where
  pub same_spec : rel.spec ≡ spec
  pub same_generation : rel.generation ≡ generation
  pub same_failures : rel.status.last_action_failures ≡ failures
  pub same_observed : rel.status.observed_generation ≡ observed

-- A predicate that the fields which mirror the release storage do not enter.
pub record Mirrored (R : Release → Type 0) : Type 0 where
  pub projects :
      (stored : Option StoredRelease) (rel : Release)
      → R rel
      → R (set_status (Controller.project stored) rel)
  pub acts :
      (action : String) (rel : Release)
      → R rel
      → R (set_status (λ st. record st { last_action = action }) rel)

pub Fixed-Mirrored :
    (spec : ReleaseSpec) (generation failures observed : ℤ)
    → Mirrored (Fixed spec generation failures observed)
unfolding Controller.project
Fixed-Mirrored spec generation failures observed = record {
  projects = projects;
  acts = λ action rel h. record {
    same_spec = h.same_spec;
    same_generation = h.same_generation;
    same_failures = h.same_failures;
    same_observed = h.same_observed;
  };
}
  where
    projects :
        (stored : Option StoredRelease) (rel : Release)
        → Fixed spec generation failures observed rel
        → Fixed spec generation failures observed (set_status (Controller.project stored) rel)
    projects none rel h = record {
      same_spec = h.same_spec;
      same_generation = h.same_generation;
      same_failures = h.same_failures;
      same_observed = h.same_observed;
    }
    projects (some stored) rel h = record {
      same_spec = h.same_spec;
      same_generation = h.same_generation;
      same_failures = h.same_failures;
      same_observed = h.same_observed;
    }

module _ (env : Env) (r : Reconciler) {R : Release → Type 0} (mirrored : Mirrored R) where
  get_release-Keeps_rel :
      (name namespace : String) → Keeps (OnRel R) (Controller.get_release env r name namespace)
  unfolding Controller.get_release
  get_release-Keeps_rel name namespace = search rel_rules

  pub project-Keeps_rel :
      (name namespace : String) (captured : Option StoredRelease) (refetch : Bool)
      → Keeps
          (OnRel R)
          (Controller.project_status_from_storage env r name namespace captured refetch)
  unfolding Controller.project_status_from_storage
  project-Keeps_rel name namespace captured refetch =
      search (rel_rules, get_release-Keeps_rel, mirrored.projects)

  record_rollback-Keeps_rel : Keeps (OnRel R) (Controller.record_rollback env r)
  unfolding Controller.record_rollback
  record_rollback-Keeps_rel = search (rel_rules, project-Keeps_rel, mirrored.acts)

  file-Keeps_rel :
      (render diff : List Patch) (dir : String)
      → Keeps (OnRel R) (Controller.write_patches_file env render diff dir)
  unfolding Controller.write_patches_file
  file-Keeps_rel render diff dir = search rel_rules depth 12

  files-Keeps_rel :
      (render diff : List Patch) (dir : String)
      → Keeps (OnRel R) (Controller.patches_files env render diff dir)
  unfolding Controller.patches_files
  files-Keeps_rel render diff dir = search (rel_rules, file-Keeps_rel)

  options-Keeps_rel : (dir : String) → Keeps (OnRel R) (Controller.build_rollback_options env r dir)
  unfolding Controller.build_rollback_options
  options-Keeps_rel dir = search (rel_rules, files-Keeps_rel)

  pub attempt_rollback-Keeps_rel : Keeps (OnRel R) (Controller.attempt_rollback env r)
  unfolding Controller.attempt_rollback with_temp_dir
  attempt_rollback-Keeps_rel =
      search (rel_rules, options-Keeps_rel, λ (u : Unit {0}). record_rollback-Keeps_rel) depth 14
