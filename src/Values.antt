-- ===== src/Values.antt =====
-- internal/values/values.go: the values files and secrets of a Release, written to a directory.
use nelm_operator.Base.{
  ℕ, suc, String, ◌<>◌, show_ℕ, Option, none, some, List, [], ◌∷◌, ◌++◌, Dict, lookup, str_eq,
  if◌then◌else◌, failure, wrap, Result, ok, err,
}
use nelm_operator.Api.{ValuesReference, SecretKeyReference, Release}
use nelm_operator.Options.{ResolvedValues}
use nelm_operator.World.{
  Env, Act, ObjectKey, ◌>>=◌, ◌>>◌, check, pure, gets, call, wrapping, file_used, config_read,
}

abbrev config_key : String → String → String → ObjectKey
config_key kind namespace name = record {
  group = "";
  version = "v1";
  kind = kind;
  namespace = namespace;
  name = name;
}

-- The entry of a map under a key, or the error that it is missing.
unfoldable pub entry : String → String → String → String → Dict String → Result String
entry kind namespace name key entries = elim (lookup key entries) [
  | some text ↦ ok text
  | none ↦ err (
      failure
        ("key " <> (key <> (" not found in " <> (kind <> (" " <> (namespace <> ("/" <> name))))))))
]

abbrev pub or_key : String → String → String
or_key default key = if str_eq key "" then default else key

module _ (env : Env) where
  -- `writeToTempFile`
  unfoldable pub write_to_temp_file : String → String → String → Act env (Result String)
  write_to_temp_file text dir pattern =
      wrapping ("create temp file " <> pattern)
        (call (file_used "create") (env.host.create_temp dir pattern))
        λ file. do
          written ← call (file_used "write") (env.host.write_file file text)
          check (pure written)
              (λ e. do
                call (file_used "close") (env.host.close_file file)
                pure (err (wrap ("write temp file " <> pattern) e)))
              λ _.
                wrapping ("close temp file " <> pattern)
                  (call (file_used "close") (env.host.close_file file)) (λ _. pure (ok file))

  -- `fetchConfigMapData`
  unfoldable pub fetch_config_map_data : String → String → String → Act env (Result String)
  unfolding entry
  fetch_config_map_data namespace name key =
      check
        (call (config_read (config_key "ConfigMap" namespace name))
          (env.kube.get_config_map namespace name))
        (λ e. pure (err e))
        (λ entries. pure (entry "ConfigMap" namespace name (or_key "values.yaml" key) entries))

  -- `fetchSecretData`
  unfoldable pub fetch_secret_data : String → String → String → Act env (Result String)
  unfolding entry
  fetch_secret_data namespace name key =
      check
        (call (config_read (config_key "Secret" namespace name))
          (env.kube.get_secret namespace name))
        (λ e. pure (err e))
        (λ entries. pure (entry "Secret" namespace name (or_key "values.yaml" key) entries))

  -- `fetchReference`
  unfoldable pub fetch_reference : String → ValuesReference → Act env (Result String)
  unfolding fetch_config_map_data fetch_secret_data
  fetch_reference namespace ref =
      if str_eq ref.kind "ConfigMap"
      then fetch_config_map_data namespace ref.name ref.data_key
      else if str_eq ref.kind "Secret"
      then fetch_secret_data namespace ref.name ref.data_key
      else pure (err (failure ("unsupported kind " <> ref.kind)))

  -- `fetchSecretKey`
  unfoldable pub fetch_secret_key : String → SecretKeyReference → Act env (Result String)
  unfolding fetch_secret_data
  fetch_secret_key namespace ref =
      check (fetch_secret_data namespace ref.name (or_key "key" ref.data_key)) (λ e. pure (err e))
        (λ text. pure (ok text))

  abbrev at_index : String → ℕ → String
  at_index field i = field <> ("[" <> (show_ℕ i <> "]"))

  -- The loop, over the references left; it returns the files in order.
  unfoldable pub resolve_references :
      String → String → String → String → ℕ → List ValuesReference → Act env (Result (List String))
  unfolding fetch_reference write_to_temp_file
  resolve_references field pattern dir namespace i [] = pure (ok [])
  resolve_references field pattern dir namespace i (ref ∷ refs) =
      let rest = resolve_references field pattern dir namespace (suc i) refs in
      check (fetch_reference namespace ref)
        (λ e.
          if ref.optional
          then rest
          else pure (
              err (
                wrap ("resolve " <> (at_index field i <> (" " <> (ref.kind <> ("/" <> ref.name)))))
                  e)))
        λ text.
          wrapping ("write " <> at_index field i)
            (write_to_temp_file text dir (pattern <> (show_ℕ i <> "-*.yaml")))
            λ file. check rest (λ e. pure (err e)) (λ files. pure (ok (file ∷ files)))

  -- The inline values come behind the chart's own files.
  unfoldable pub resolve_inline : Option String → String → Act env (Result (List String))
  unfolding write_to_temp_file
  resolve_inline none dir = pure (ok [])
  resolve_inline (some raw) dir =
      wrapping "write inline values" (write_to_temp_file raw dir "inline-values-*.yaml")
        (λ file. pure (ok (file ∷ [])))

  unfoldable pub resolve_secret_key : String → Option SecretKeyReference → Act env (Result String)
  unfolding fetch_secret_key
  resolve_secret_key namespace none = pure (ok "")
  resolve_secret_key namespace (some ref) =
      wrapping "resolve secretKeyFrom" (fetch_secret_key namespace ref) (λ key. pure (ok key))

  unfoldable pub resolve_keyring :
      String → String → Option SecretKeyReference → Act env (Result String)
  unfolding fetch_secret_data write_to_temp_file
  resolve_keyring dir namespace none = pure (ok "")
  resolve_keyring dir namespace (some ref) =
      wrapping "resolve provenance keyring"
        (fetch_secret_data namespace ref.name (or_key "key" ref.data_key))
        λ text.
          wrapping "write provenance keyring" (write_to_temp_file text dir "provenance-keyring-*")
            (λ file. pure (ok file))

  abbrev pub keyring_from : Release → Option SecretKeyReference
  keyring_from rel = elim rel.spec.provenance [
    | none ↦ none
    | some provenance ↦ provenance.keyring_from
  ]

  -- `Resolve`; its parts return their errors as they are.
  unfoldable pub resolve : List String → String → Act env (Result ResolvedValues)
  resolve chart_values_files dir = do
    rel ← gets (λ rel. rel)
    check (resolve_inline rel.spec.values dir) (λ e. pure (err e))
        λ inline.
          check
            (resolve_references "valuesFrom" "values-from-" dir rel.namespace 0
              rel.spec.values_from)
            (λ e. pure (err e))
            λ values.
              check (resolve_secret_key rel.namespace rel.spec.secret_key_from) (λ e. pure (err e))
                λ key.
                  check
                    (resolve_references "secretValuesFrom" "secret-values-" dir rel.namespace 0
                      rel.spec.secret_values_from)
                    (λ e. pure (err e))
                    λ secrets.
                      check (resolve_keyring dir rel.namespace (keyring_from rel))
                        (λ e. pure (err e))
                        λ keyring. pure (
                          ok (record {
                            values_files = chart_values_files ++ (inline ++ values);
                            secret_values_files = secrets;
                            secret_key = key;
                            provenance_keyring_path = keyring;
                          }))
