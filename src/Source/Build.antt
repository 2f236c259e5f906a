-- ===== src/Source/Build.antt =====
-- `BuildChartSourceFromRelease` and `GetObjectHashedName` of internal/source/source.go.
use Prim.Native.Char.{code}
use Prim.Native.String.{slice}
use Prim.Native.String as Text
use nelm_operator.Base.{
  String, ◌<>◌, ◌&&◌, none, some, ◌==◌, str_eq, if◌then◌else◌, failure, wrap, Result, ok, err,
}
use nelm_operator.Api.{Release, ReleaseChart}
use nelm_operator.Source.Objects.{SourceSpec, SourceObject}
use nelm_operator.Source.Repositories.{
  build_git_repository, build_helm_repository, build_bucket, build_oci_repository,
}

-- `strings.TrimRight(s, "-")`
unfoldable pub trim_right_dashes : String → String
trim_right_dashes Text.[] = ""
trim_right_dashes (Text.◌∷◌ c s) =
    let rest = trim_right_dashes s in
    if str_eq rest "" && (code c == b'-') then "" else Text.◌∷◌ c rest

-- `marshal_spec` is the conversion of the object and the JSON text of its spec.
module _ (sha256_hex : String → String) (marshal_spec : SourceSpec → Result String) where
  -- `GetObjectHashedName`
  unfoldable pub object_hashed_name : SourceObject → Result String
  unfolding trim_right_dashes
  object_hashed_name obj = elim (marshal_spec obj.spec) [
    | err e ↦ err (wrap "failed to marshal spec" e)
    | ok text ↦ ok (trim_right_dashes obj.name <> ("-" <> slice (sha256_hex text) 0 12))
  ]

  -- Each case of the switch ends so.
  unfoldable pub with_hashed_name : SourceObject → Result SourceObject
  with_hashed_name obj = elim (object_hashed_name obj) [
    | err e ↦ err (wrap "set chart source hashed name" e)
    | ok name ↦ ok (record obj { name = name })
  ]

  -- The switch of `BuildChartSourceFromRelease`, in its order.
  unfoldable pub build_from_chart : String → String → Release → ReleaseChart → Result SourceObject
  build_from_chart group version rel chart = elim chart.git [
    | some git ↦ with_hashed_name (build_git_repository group version rel git)
    | none ↦ elim chart.repo [
      | some repo ↦ with_hashed_name (build_helm_repository group version rel repo)
      | none ↦ elim chart.bucket [
        | some b ↦ with_hashed_name (build_bucket group version rel b)
        | none ↦ elim chart.oci [
          | some oci ↦ with_hashed_name (build_oci_repository group version rel oci)
          | none ↦ err (
              failure
                "no chart source configured: exactly one of git, repo, oci or bucket must be set")
        ]
      ]
    ]
  ]
