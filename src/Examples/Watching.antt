-- ===== src/Examples/Watching.antt =====
-- Releases that are served from a HelmChart and from an OCIRepository, in a store of their own.
use nelm_operator.Base.{subst, ap, eq_refl, if◌then◌else◌, err, failure, str_eq, false}
use nelm_operator.Watches.Setup.{ControllerManager, Listing}
use nelm_operator.Watches.Indexed.{IsIndexing}
use nelm_operator.Base.{String, ◌≡◌, refl, some, List, [], ◌∷◌, Result, ok}
use nelm_operator.Api.{Release, ChartSourceRef}
use nelm_operator.World.{State, ◌>>=◌}
use nelm_operator.Controller
use nelm_operator.Controller.{resolved}
use nelm_operator.Watches.Requests.{WatchedSource}
use nelm_operator.Watches.Served.{IsAdmitted, KeepsNames}
use nelm_operator.Watches.Wakes.{ListsBy, matching}
use nelm_operator.Examples.Cluster.{cluster}
use nelm_operator.Examples.Releases.{release, reconciler, spec, chart_ref, start_with}

-- A Release by a reference to an OCIRepository.
abbrev pub oci_release : Release
oci_release = record release {
  spec = record spec { chart_ref = some (record chart_ref { kind = "OCIRepository" }) };
}

abbrev pub filled : String → ChartSourceRef
filled kind = record chart_ref { kind = kind; namespace = "prod" }

abbrev pub filled_state : Release → String → State cluster
filled_state rel kind = record (start_with rel) {
  rel = record rel { spec = record rel.spec { chart_ref = some (filled kind) } };
}

pub release-IsAdmitted : IsAdmitted release
release-IsAdmitted = record { chart_or_ref = refl; one_source = λ chart q. cc }

pub oci_release-IsAdmitted : IsAdmitted oci_release
oci_release-IsAdmitted = record { chart_or_ref = refl; one_source = λ chart q. cc }

pub resolved_release :
    Controller.resolve_chart_ref cluster reconciler (start_with release)
    ≡ (resolved (filled "HelmChart"), filled_state release "HelmChart")
unfolding Controller.resolve_chart_ref ◌>>=◌
resolved_release = refl

pub resolved_oci_release :
    Controller.resolve_chart_ref cluster reconciler (start_with oci_release)
    ≡ (resolved (filled "OCIRepository"), filled_state oci_release "OCIRepository")
unfolding Controller.resolve_chart_ref ◌>>=◌
resolved_oci_release = refl

pub cluster-KeepsNames : KeepsNames cluster
cluster-KeepsNames rel obj owned q = cc

abbrev pub store : List Release
store = release ∷ oci_release ∷ []

abbrev pub list_by : (Release → List String) → String → String → Result (List Release)
list_by keys field key = ok (matching keys key store)

pub list_by-lists :
    (keys : Release → List String) (field : String) → ListsBy keys field store (list_by keys)
list_by-lists keys field = record { lists = λ key. refl }

-- A source whose artifact has the revision.
abbrev pub source_at : String → WatchedSource
source_at revision = record { namespace = "prod"; name = "shop"; artifact = some revision }

-- A manager that keeps the registered index functions, the newest first.
abbrev pub Registered : Type 0
Registered = List (String × (Release → List String))

unfoldable pub look_up : List Release → Registered → Listing
look_up releases [] field key = err (failure "no index")
look_up releases ((other, keys) ∷ w) field key =
    let rest = look_up releases w field key in
    if str_eq other field then ok (matching keys key releases) else rest

abbrev pub manager : ControllerManager Registered
manager = record {
  index_field = λ field keys w. (ok tt, (field, keys) ∷ w);
  complete = λ builder w. (ok tt, w);
}

look_up-here :
    (releases : List Release) (field : String) (keys : Release → List String) (w : Registered)
    → ListsBy keys field releases (look_up releases ((field, keys) ∷ w))
unfolding look_up
look_up-here releases field keys w = record { lists = λ key. rw (eq_refl field) refl }

look_up-later :
    (releases : List Release) (field other : String) (keys kept : Release → List String)
    (w : Registered)
    → str_eq field other ≡ false
    → ListsBy kept other releases (look_up releases w)
    → ListsBy kept other releases (look_up releases ((field, keys) ∷ w))
unfolding look_up
look_up-later releases field other keys kept w apart h = record {
  lists = λ key. rw apart (h.lists key);
}

pub manager-IsIndexing : (releases : List Release) → IsIndexing manager releases (look_up releases)
manager-IsIndexing releases = record {
  registers = λ field keys w w' u q.
      subst (λ v. ListsBy keys field releases (look_up releases v)) (ap (λ out. out.1) q)
        (look_up-here releases field keys w);
  keeps = λ field other keys kept w w' u q apart h.
      subst (λ v. ListsBy kept other releases (look_up releases v)) (ap (λ out. out.1) q)
        (look_up-later releases field other keys kept w apart h);
  builds = λ builder field keys w w' u q h.
      subst (λ v. ListsBy keys field releases (look_up releases v)) (ap (λ out. out.1) q) h;
}
