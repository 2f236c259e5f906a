-- ===== src/Source/Repositories.antt =====
-- builders_common.go, builders_gitrepository.go, builders_helmrepository.go, builders_bucket.go
-- and builders_ocirepository.go of internal/source.
use mathlib.Core.Option
use text.Mathlib.Text.{starts_with}
use nelm_operator.Base.{
  String, ◌<>◌, pos, eq_ℤ, not, ◌||◌, Option, none, some, str_eq, if◌then◌else◌,
}
use nelm_operator.Api.{
  Duration, Release, GitRepositoryChartSource, HelmRepositoryChartSource, BucketChartSource,
  OciRepositoryChartSource, CredentialReference, CertificateReference, ProxySettingsReference,
}
use nelm_operator.Source.Objects.{
  OciRepositoryRef, SourceSpec, git_repository, helm_repository, bucket, oci_repository,
  SourceObject, git_repository_kind, helm_repository_kind, bucket_kind, oci_repository_kind,
  helm_repository_type_default, helm_repository_type_oci,
}

-- `getNoneZeroDuration`
unfoldable pub none_zero_duration : Duration → Duration → Duration
unfolding eq_ℤ
none_zero_duration d fallback = if eq_ℤ d (pos 0) then fallback else d

abbrev credentials : Option CredentialReference → Option String
credentials = Option.map (λ r. r.name)

abbrev certificate : Option CertificateReference → Option String
certificate = Option.map (λ r. r.name)

abbrev proxy_settings : Option ProxySettingsReference → Option String
proxy_settings = Option.map (λ r. r.name)

-- The object metadata that the four builders share.
source_object : String → String → Release → String → SourceSpec → SourceObject
source_object group version rel kind spec = record {
  api_version = group <> ("/" <> version);
  kind = kind;
  name = rel.namespace <> ("-" <> "inline");
  namespace = rel.namespace;
  annotations = none;
  spec = spec;
}

-- Each builder takes the chart source that the caller's switch has found in the Release.
unfoldable pub build_git_repository :
    String → String → Release → GitRepositoryChartSource → SourceObject
unfolding source_object
build_git_repository group version rel git = source_object group version rel git_repository_kind (
    git_repository (record {
      url = git.url;
      reference = record {
        branch = git.branch;
        tag = git.tag;
        sem_ver = git.sem_ver;
        commit = git.commit;
        name = git.reference;
      };
      provider = git.provider;
      service_account_name = git.service_account_name;
      recurse_submodules = git.submodules;
      sparse_checkout = git.sparse_checkout;
      ignore = git.ignore;
      include = git.include;
      interval = none_zero_duration git.interval rel.spec.interval;
      timeout = git.timeout;
      verification = git.verification;
      secret_ref = credentials git.credentials_from;
      proxy_secret_ref = proxy_settings git.proxy_settings_from;
    }))

unfoldable pub build_helm_repository :
    String → String → Release → HelmRepositoryChartSource → SourceObject
unfolding source_object
build_helm_repository group version rel repo =
    source_object group version rel helm_repository_kind (
      helm_repository (record {
        url = repo.url;
        type =
            if starts_with repo.url "oci://"
            then helm_repository_type_oci
            else helm_repository_type_default;
        pass_credentials = repo.pass_credentials;
        insecure = repo.insecure;
        interval = none_zero_duration repo.interval rel.spec.interval;
        timeout = repo.timeout;
        secret_ref = credentials repo.credentials_from;
        cert_secret_ref = certificate repo.certificate_from;
      }))

unfoldable pub build_bucket : String → String → Release → BucketChartSource → SourceObject
unfolding source_object
build_bucket group version rel b = source_object group version rel bucket_kind (
    bucket (record {
      endpoint = b.endpoint;
      bucket_name = b.bucket_name;
      provider = b.provider;
      region = b.region;
      prefix = b.prefix;
      service_account_name = b.service_account_name;
      insecure = b.insecure;
      ignore = b.ignore;
      sts = b.sts;
      interval = none_zero_duration b.interval rel.spec.interval;
      timeout = b.timeout;
      secret_ref = credentials b.credentials_from;
      cert_secret_ref = certificate b.certificate_from;
      proxy_secret_ref = proxy_settings b.proxy_settings_from;
    }))

-- The nested reference is built only if a selector is set.
oci_reference : OciRepositoryChartSource → Option OciRepositoryRef
oci_reference oci =
    if not (str_eq oci.tag "")
      || (not (str_eq oci.sem_ver "")
          || (not (str_eq oci.semver_filter "") || not (str_eq oci.digest "")))
    then some (record {
      tag = oci.tag;
      sem_ver = oci.sem_ver;
      semver_filter = oci.semver_filter;
      digest = oci.digest;
    })
    else none

unfoldable pub build_oci_repository :
    String → String → Release → OciRepositoryChartSource → SourceObject
unfolding source_object oci_reference
build_oci_repository group version rel oci = source_object group version rel oci_repository_kind (
    oci_repository (record {
      url = oci.url;
      reference = oci_reference oci;
      provider = oci.provider;
      service_account_name = oci.service_account_name;
      insecure = oci.insecure;
      ignore = oci.ignore;
      layer_selector = oci.layer_selector;
      interval = none_zero_duration oci.interval rel.spec.interval;
      timeout = oci.timeout;
      verify = oci.verify;
      secret_ref = credentials oci.credentials_from;
      proxy_secret_ref = proxy_settings oci.proxy_settings_from;
      cert_secret_ref = certificate oci.certificate_from;
    }))
