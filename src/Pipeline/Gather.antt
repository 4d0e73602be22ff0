-- ===== src/Pipeline/Gather.antt =====
-- `execute` of services/backup.py up to its last read: from the context of the run to the prepared
-- artifacts and the comparison with the latest revision. Nothing here changes state.
use netbox_plugin_backup.Prelude.{
  Bool, true, not, ◌&&◌, ◌||◌, Option, none, some, List, [], ◌∷◌, String, Result, ok, err, ◌>>=◌,
  ◌>>◌, require, ◌==◌, string_eq, if◌then◌else◌,
}
use netbox_plugin_backup.Pipeline.{
  Failure, internal, operation_error, PreparedArtifact, ExecutionContext, RevisionSnapshot, Env,
}
use netbox_plugin_backup.Pipeline.Prepare.{prepare_artifacts}

-- A provider id or a reference that is set.
abbrev is_set : String → Bool
is_set s = not (s == "")

module _ {Store : Type 0} (env : Env Store) where
  -- The credentials of the device, if either half of them is configured.
  unfoldable pub device_credentials : ExecutionContext → Result Failure (Option String)
  device_credentials c =
      if is_set c.secret_provider_id || is_set c.secret_reference
      then (do
        require (is_set c.secret_provider_id && is_set c.secret_reference) (
            operation_error "NO_CREDENTIAL_PROFILE"
              "Credential provider and reference must both be configured.")
        secret ← env.resolve c.secret_provider_id c.secret_reference
        ok (some secret))
      else ok none

  unfoldable pub receiver_credentials : ExecutionContext → Result Failure (Option String)
  receiver_credentials c =
      if c.has_receiver
      then (do
        require (is_set c.receiver_secret_provider_id && is_set c.receiver_secret_reference) (
            operation_error "NO_RECEIVER_CREDENTIALS"
              "The device upload receiver has no complete credential profile.")
        secret ← env.resolve c.receiver_secret_provider_id c.receiver_secret_reference
        ok (some secret))
      else ok none

-- `next(item for item in prepared if item.is_primary)`, which raises StopIteration on none.
unfoldable pub first_primary : List PreparedArtifact → Result Failure PreparedArtifact
first_primary [] = err internal
first_primary (p ∷ rest) = let later = first_primary rest in if p.is_primary then ok p else later

-- `latest is None or latest.normalized_hash != primary.normalized_hash`
unfoldable pub is_content_changed : Option RevisionSnapshot → PreparedArtifact → Bool
is_content_changed none primary = true
is_content_changed (some latest) primary = not (latest.normalized_hash == primary.normalized_hash)

unfoldable pub is_raw_changed : Option RevisionSnapshot → PreparedArtifact → Bool
is_raw_changed none primary = true
is_raw_changed (some latest) primary = not (latest.primary_raw_hash == primary.raw_hash)

-- The local variables of `execute` at the first branch on them.
pub record Gathered : Type 0 where
  pub context : ExecutionContext
  pub prepared : List PreparedArtifact
  pub primary : PreparedArtifact
  pub latest : Option RevisionSnapshot

unfoldable pub gather : {Store : Type 0} → Env Store → ExecutionContext → Result Failure Gathered
gather env c = do
  driver ← env.create_driver c.driver_id
  credentials ← device_credentials env c
  receiver ← receiver_credentials env c
  artifacts ← driver.collect credentials receiver
  prepared ← prepare_artifacts driver env.sha256_hex artifacts
  primary ← first_primary prepared
  latest ← env.latest c.target_id
  ok (record { context = c; prepared = prepared; primary = primary; latest = latest })
