-- ===== src/Watches/Served/HelmChart.antt =====
-- `ensureHelmChart` returns the reference in the index.
use nelm_operator.Base.{
  String, ◌≡◌, refl, sym, subst, ap, ◌∙◌, Bool, true, false, ◌&&◌, ◌||◌, Option, none, some,
  is_some, [], ◌∷◌, wrap, failure, Result, ok, err, arith,
}
use nelm_operator.Api.{
  Release, ReleaseChart, OciRepositoryChartSource, GitRepositoryChartSource,
  HelmRepositoryChartSource, BucketChartSource,
}
use nelm_operator.Source.{
  SourceObject, build_helm_chart, helm_chart_for_git_repository, helm_chart_for_helm_repository,
  helm_chart_for_bucket, HelmChartObject, build_from_chart, build_oci_repository, with_hashed_name,
  object_hashed_name, SourceSpec, helm_chart_hashed_name, helm_chart_kind, oci_repository_kind,
}
use nelm_operator.World.{Env, State, ◌>>=◌, pure, call, helm_chart_applied}
use nelm_operator.Controller
use nelm_operator.Controller.{
  Reconciler, ChartRefStep, resolved, finished, Outcome, forget_sources, enter_disconnecting,
  enter_ready, is_settled_phase, same_option, enter_pending,
}
use nelm_operator.Laws.Keeps.{check-outcomes}
use nelm_operator.Watches.SourceRefs.{
  source_key_of, source_ref_keys, keys_for, chart_keys, inline_keys, oci_keys,
}
use nelm_operator.Watches.Served.{KeepsNames, is_some-none, index, ServesResult, gives, fails}

-- The kind of a built source.
kind_or : String → Result SourceObject → String
kind_or kind (ok obj) = obj.kind
kind_or kind (err e) = kind

module _ (sha256_hex : String → String) (marshal_spec : SourceSpec → Result String) where
  with_hashed_name-kind :
      (obj : SourceObject)
      → kind_or obj.kind (with_hashed_name sha256_hex marshal_spec obj) ≡ obj.kind
  unfolding with_hashed_name kind_or
  with_hashed_name-kind obj = after (object_hashed_name sha256_hex marshal_spec obj)
    where
      after :
          (out : Result String)
          → kind_or obj.kind (elim out [
            | err e ↦ err (wrap "set chart source hashed name" e)
            | ok name ↦ ok (record obj { name = name })
          ])
            ≡ obj.kind
      after (ok name) = refl
      after (err e) = refl

  build_from_chart-kind :
      (group version : String) (rel : Release) (chart : ReleaseChart)
      → chart.git ≡ none
      → chart.repo ≡ none
      → chart.bucket ≡ none
      → kind_or oci_repository_kind
          (build_from_chart sha256_hex marshal_spec group version rel chart)
        ≡ oci_repository_kind
  unfolding build_from_chart kind_or build_oci_repository
  build_from_chart-kind group version rel chart p q u = rw (p, q, u) (after chart.oci)
    where
      after :
          (o : Option OciRepositoryChartSource)
          → kind_or oci_repository_kind (elim o [
            | some oci ↦
                with_hashed_name sha256_hex marshal_spec
                  (build_oci_repository group version rel oci)
            | none ↦ err (
                failure
                  "no chart source configured: exactly one of git, repo, oci or bucket must be set")
          ])
            ≡ oci_repository_kind
      after (some oci) = with_hashed_name-kind (build_oci_repository group version rel oci)
      after none = refl

module _ (env : Env) (r : Reconciler) where
  abbrev IsHelmChartIndexed : Release → Type 0
  IsHelmChartIndexed rel =
      index env r rel
      ≡ source_key_of helm_chart_kind rel.namespace
          (helm_chart_hashed_name env.host.sha256_hex rel.namespace rel.name)
        ∷ []

  -- A HelmChart that is built has the name in the index, and a source that is not OCI.
  data Built (rel : Release) (others : Bool) : Option HelmChartObject → Type 0 where
    built :
        (obj : HelmChartObject)
        → obj.name ≡ helm_chart_hashed_name env.host.sha256_hex rel.namespace rel.name
        → others ≡ true
        → Built rel others (some obj)
    not_built : Built rel others none

  unfoldable pub has_other : ReleaseChart → Bool
  has_other chart = is_some chart.git || (is_some chart.repo || is_some chart.bucket)

  helm_chart_of-Built :
      (rel : Release) (source_name : String) (git : Option GitRepositoryChartSource)
      (repo : Option HelmRepositoryChartSource) (bucket : Option BucketChartSource)
      (oci : Option OciRepositoryChartSource)
      → Built rel (is_some git || (is_some repo || is_some bucket)) (
          Controller.helm_chart_of env r rel source_name
            (record { git = git; repo = repo; bucket = bucket; oci = oci }))
  unfolding Controller.helm_chart_of helm_chart_for_git_repository helm_chart_for_helm_repository
      helm_chart_for_bucket build_helm_chart
  helm_chart_of-Built rel source_name (some g) repo bucket oci = built _ refl refl
  helm_chart_of-Built rel source_name none (some h) bucket oci = built _ refl refl
  helm_chart_of-Built rel source_name none none (some b) oci = built _ refl refl
  helm_chart_of-Built rel source_name none none none oci = not_built

  owner_answer : {A : Type 0} {x y : Result A} (s s' : State env) → pure x s ≡ (y, s') → x ≡ y
  unfolding pure
  owner_answer s s' p = ap (λ out. out.0) p

  apply_helm_chart-ServesResult :
      KeepsNames env
      → (rel : Release) (obj : HelmChartObject) (s : State env) → s.rel ≡ rel
      → obj.name ≡ helm_chart_hashed_name env.host.sha256_hex rel.namespace rel.name
      → IsHelmChartIndexed rel
      → ServesResult env r rel (Controller.apply_helm_chart env r obj s)
  unfolding Controller.apply_helm_chart ◌>>=◌
  apply_helm_chart-ServesResult keeps rel obj s same name q =
      check-outcomes (ServesResult env r rel) (pure (env.kube.set_controller_reference s.rel obj)) _
        _ s (λ e s' p. fails _ _)
        (λ owned s' p.
          check-outcomes (ServesResult env r rel)
            (call
              (helm_chart_applied (record {
                group = r.config.source_api_group;
                version = r.config.source_api_version;
                kind = helm_chart_kind;
                namespace = owned.namespace;
                name = owned.name;
              }))
              (env.kube.apply_helm_chart owned))
            _ _ s' (λ e s'' p'. fails _ _)
            (λ _ s'' p'. gives _ _ (
              q
              ∙ (ap
                    (λ x.
                      source_key_of helm_chart_kind x.namespace
                        (helm_chart_hashed_name env.host.sha256_hex rel.namespace rel.name)
                      ∷ [])
                    (sym same)
                  ∙ ap (λ n. source_key_of helm_chart_kind s.rel.namespace n ∷ [])
                      (sym (keeps s.rel obj owned (owner_answer s s' p) ∙ name))))))

  -- The Release whose inline chart is built into the source.
  pub record Inline (rel : Release) (chart : ReleaseChart) (obj : SourceObject) : Type 0 where
    pub no_ref : rel.spec.chart_ref ≡ none
    pub given : rel.spec.chart ≡ some chart
    pub build :
        build_from_chart env.host.sha256_hex env.host.marshal_spec r.config.source_api_group
          r.config.source_api_version rel chart
        ≡ ok obj

  -- The index of such a Release, by the rest of the switch.
  Inline-index :
      (rel : Release) (chart : ReleaseChart) (obj : SourceObject)
      (oci : Option OciRepositoryChartSource)
      → Inline rel chart obj
      → chart.oci ≡ oci
      → index env r rel
        ≡ inline_keys env.host.sha256_hex env.host.marshal_spec r.config rel chart oci
  unfolding source_ref_keys
  Inline-index rel chart obj oci inline p =
      ap (keys_for env.host.sha256_hex env.host.marshal_spec r.config rel) inline.no_ref
      ∙ (ap (chart_keys env.host.sha256_hex env.host.marshal_spec r.config rel) inline.given
          ∙ ap (inline_keys env.host.sha256_hex env.host.marshal_spec r.config rel chart) p)

  Inline-oci_repository :
      (rel : Release) (chart : ReleaseChart) (obj : SourceObject) (oci : OciRepositoryChartSource)
      → Inline rel chart obj
      → chart.oci ≡ some oci
      → has_other chart ≡ false
      → index env r rel ≡ source_key_of oci_repository_kind rel.namespace obj.name ∷ []
  unfolding source_ref_keys has_other kind_or
  Inline-oci_repository rel chart obj oci inline p q =
      Inline-index rel chart obj (some oci) inline p
      ∙ (ap (oci_keys env.host.sha256_hex env.host.marshal_spec r.config rel) inline.build
          ∙ ap (λ kind. source_key_of kind rel.namespace obj.name ∷ []) kind)
    where
      kind : obj.kind ≡ oci_repository_kind
      kind =
          sym (ap (kind_or oci_repository_kind) inline.build)
          ∙ build_from_chart-kind env.host.sha256_hex env.host.marshal_spec
              r.config.source_api_group r.config.source_api_version rel chart
              (is_some-none chart.git (ground arith)) (is_some-none chart.repo (ground arith))
              (is_some-none chart.bucket (ground arith))

  pub ensure_for-ServesResult :
      KeepsNames env
      → (rel : Release) (chart : ReleaseChart) (obj : SourceObject) (s : State env) → s.rel ≡ rel
      → Inline rel chart obj
      → (is_some chart.oci && has_other chart) ≡ false
      → ServesResult env r rel (Controller.ensure_for env r rel obj.name (some chart) s)
  unfolding Controller.ensure_for ◌>>=◌ has_other Controller.helm_chart_of source_ref_keys
  ensure_for-ServesResult keeps rel chart obj s same inline one =
      deployed (Controller.helm_chart_of env r rel obj.name chart)
        (helm_chart_of-Built rel obj.name chart.git chart.repo chart.bucket chart.oci) chart.oci
        refl
    where
      other_none : (oci : OciRepositoryChartSource) → chart.oci ≡ some oci → has_other chart ≡ false
      other_none oci p = subst (λ o. (is_some o && has_other chart) ≡ false) p one

      deployed :
          (o : Option HelmChartObject)
          → Built rel (has_other chart) o
          → (oci : Option OciRepositoryChartSource) → chart.oci ≡ oci
          → ServesResult env r rel (Controller.deploy_chart env r rel obj.name o oci s)
      deployed _ (built h name other) oci p =
          apply_helm_chart-ServesResult keeps rel h s same name
            (Inline-index rel chart obj none inline (is_some-none chart.oci (ground arith)))
      deployed none not_built (some oci) p =
          gives _ _ (Inline-oci_repository rel chart obj oci inline p (other_none oci p))
      deployed none not_built none p = fails _ _
