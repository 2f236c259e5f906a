-- ===== src/Artifact.antt =====
-- `ResolveChartRef` and what it calls in internal/source/source.go: from a chart reference to a
-- downloaded chart.
use nelm_operator.Base.{
  String, ◌<>◌, show_ℤ, ℤ, pos, ltb_ℤ, Bool, true, false, not, Option, none, some, List, [], ◌∷◌,
  str_eq, if◌then◌else◌, failure, wrap, source_not_ready, Result, ok, err,
}
use nelm_operator.Api.{ChartSourceRef, Duration}
use nelm_operator.Config.{OperatorConfig}
use nelm_operator.World.{
  Env, Act, ObjectKey, ◌>>=◌, ◌>>◌, check, pure, call, leave, wrapping, file_used, artifact_fetched,
  object_read,
}

pub record ChartResult : Type 0 where
  pub chart_path : String
  pub digest : String
  pub revision : String
  pub values_files : List String

-- What `checkReadyCondition` answers: readiness and a message.
pub record Readiness : Type 0 where
  pub ready : Bool
  pub text : String

module _ (env : Env) where
  -- `s, _, _ := unstructured.NestedString(…)`
  unfoldable pub nested_or_empty : env.Json → List String → String
  nested_or_empty json path = elim (env.kube.nested_string json path) [
    | err e ↦ ""
    | ok found ↦ elim found [ none ↦ "" | some text ↦ text ]
  ]

  -- The loop of `checkReadyCondition`: the first condition of the type decides.
  unfoldable pub find_ready : List (Option env.Json) → Readiness
  unfolding nested_or_empty
  find_ready [] = record { ready = false; text = "Ready condition not found" }
  find_ready (none ∷ conditions) = find_ready conditions
  find_ready (some c ∷ conditions) =
      if str_eq (nested_or_empty c ("type" ∷ [])) "Ready"
      then record {
        ready = str_eq (nested_or_empty c ("status" ∷ [])) "True";
        text = nested_or_empty c ("message" ∷ []);
      }
      else find_ready conditions

  -- `checkReadyCondition`
  unfoldable pub check_ready_condition : env.Json → Result Readiness
  unfolding find_ready
  check_ready_condition json = elim (env.kube.nested_slice json ("status" ∷ "conditions" ∷ [])) [
    | err e ↦ err (wrap "read conditions" e)
    | ok found ↦ elim found [
      | none ↦ ok (record { ready = false; text = "no conditions found" })
      | some conditions ↦ ok (find_ready conditions)
    ]
  ]

  -- `downloadArtifact`; a status of 400 or more is an error, and leaves the file behind.
  unfoldable pub download_artifact : String → String → ℤ → Duration → Act env (Result String)
  download_artifact url dir max_retries timeout =
      wrapping "create chart temp file"
        (call (file_used "create") (env.host.create_temp dir "chart-*.tgz"))
        λ path. do
          fetched ← call (artifact_fetched url) (env.host.fetch url path max_retries timeout)
          result ←
              check (pure fetched)
                (λ e. do
                  leave (file_used "remove" true) (env.host.remove_file path)
                  pure (err (wrap "download artifact" e)))
                λ status. pure (
                  if not (ltb_ℤ status (pos 400))
                  then err (failure ("download artifact: unexpected status " <> show_ℤ status))
                  else ok path)
          call (file_used "close") (env.host.close_file path)
          pure result

  -- The optional list `spec.valuesFiles`.
  unfoldable pub embedded_values_files : env.Json → Result (List String)
  embedded_values_files json =
      elim (env.kube.nested_string_slice json ("spec" ∷ "valuesFiles" ∷ [])) [
        | err e ↦ err (wrap "read .spec.valuesFiles" e)
        | ok found ↦ elim found [ none ↦ ok [] | some files ↦ ok files ]
      ]

  -- The artifact's URL, which has to be there.
  unfoldable pub artifact_url : env.Json → Result String
  artifact_url json = elim (env.kube.nested_string json ("status" ∷ "artifact" ∷ "url" ∷ [])) [
    | err e ↦ err (wrap "read .status.artifact.url" e)
    | ok found ↦ elim found [
      | none ↦ err (failure "source object has no .status.artifact.url")
      | some url ↦
          if str_eq url ""
          then err (failure "source object has no .status.artifact.url")
          else ok url
    ]
  ]

  -- `extractArtifact`
  unfoldable pub extract_artifact : env.Json → String → ℤ → Duration → Act env (Result ChartResult)
  unfolding check_ready_condition artifact_url embedded_values_files
  extract_artifact json dir http_retry http_timeout =
      wrapping "check source readiness" (pure (check_ready_condition json)) λ readiness.
        if not readiness.ready
        then pure (err (source_not_ready readiness.text))
        else check (pure (artifact_url json)) (λ e. pure (err e))
            λ url.
              check (pure (embedded_values_files json)) (λ e. pure (err e))
                λ files.
                  wrapping "download chart artifact"
                    (download_artifact url dir http_retry http_timeout)
                    λ path. pure (
                      ok (record {
                        chart_path = path;
                        digest = nested_or_empty json ("status" ∷ "artifact" ∷ "digest" ∷ []);
                        revision = nested_or_empty json ("status" ∷ "artifact" ∷ "revision" ∷ []);
                        values_files = files;
                      }))

  -- `source.ResolveChartRef`
  unfoldable pub fetch_chart :
      OperatorConfig → ChartSourceRef → String → Act env (Result ChartResult)
  fetch_chart config ref dir =
      let key : ObjectKey = record {
        group = config.source_api_group;
        version = config.source_api_version;
        kind = ref.kind;
        namespace = ref.namespace;
        name = ref.name;
      } in
      wrapping ("get chart ref " <> (ref.kind <> ("/" <> ref.name)))
        (call (object_read key) (env.kube.get_object key))
        (λ live. extract_artifact live.content dir config.http_retry config.http_timeout)
