-- ===== src/Pipeline/Prepare.antt =====
-- `_prepare_artifacts` of services/backup.py: the checks on what a driver returned, then each
-- artifact's validation and normalization.
use netbox_plugin_backup.Prelude.{
  ◌≡◌, refl, ◌≢◌, ◌↔◌, subst, Bool, true, false, not, ◌||◌, List, [], ◌∷◌, String, Result, ok, err,
  ◌>>=◌, ◌>>◌, require, >>=-eq-ok, ok-injective, any_of, count_if, All₂, nat_beq, nat_beq_iff, ◌==◌,
  string_eq, arith, if◌then◌else◌,
}
use netbox_plugin_backup.Pipeline.{
  Failure, operation_error, CollectedArtifact, PreparedArtifact, ValidationResult, Normalized,
  bytes, not_bytes, invalid, raises, Driver,
}

-- `len({types}) != len(artifacts)`
unfoldable pub has_duplicate_types : List CollectedArtifact → Bool
has_duplicate_types [] = false
has_duplicate_types (a ∷ rest) =
    any_of (λ b. b.artifact_type == a.artifact_type) rest || has_duplicate_types rest

abbrev pub is_primary : CollectedArtifact → Bool
is_primary a = a.is_primary

abbrev normalization_failed : String → Failure
normalization_failed message = operation_error "NORMALIZATION_FAILED" message

-- The `try` around `driver.normalize`, and the test that its result is a text of bytes.
unfoldable pub normalize_artifact : Normalized → Result Failure String
normalize_artifact (bytes text) =
    if text == ""
    then err (normalization_failed "Artifact normalization returned no data.")
    else ok text
normalize_artifact not_bytes = err (normalization_failed "Artifact normalization returned no data.")
normalize_artifact invalid = err (normalization_failed "Artifact normalization failed.")
normalize_artifact (raises e) = err e

abbrev pub prepared : (String → String) → CollectedArtifact → String → PreparedArtifact
prepared sha256_hex a normalized = record {
  artifact = a;
  raw_hash = sha256_hex a.content;
  normalized_hash = sha256_hex normalized;
  is_primary = a.is_primary;
}

unfoldable pub prepare_each :
    Driver → (String → String) → List CollectedArtifact → Result Failure (List PreparedArtifact)
prepare_each driver sha256_hex [] = ok []
prepare_each driver sha256_hex (a ∷ rest) = do
  validation ← driver.validate a
  require validation.valid (operation_error validation.error_code validation.safe_message)
  normalized ← normalize_artifact (driver.normalize a)
  others ← prepare_each driver sha256_hex rest
  ok (prepared sha256_hex a normalized ∷ others)

abbrev is_empty : List CollectedArtifact → Bool
is_empty [] = true
is_empty (a ∷ rest) = false

unfoldable pub prepare_artifacts :
    Driver → (String → String) → List CollectedArtifact → Result Failure (List PreparedArtifact)
prepare_artifacts driver sha256_hex artifacts = do
  require (not (is_empty artifacts))
      (operation_error "EMPTY_CONFIG" "Driver returned no artifacts.")
  require (not (has_duplicate_types artifacts))
      (operation_error "VALIDATION_FAILED" "Driver returned duplicate artifact types.")
  require (nat_beq (count_if is_primary artifacts) 1)
      (operation_error "VALIDATION_FAILED" "Exactly one primary artifact is required.")
  prepare_each driver sha256_hex artifacts

-- A prepared artifact is the collected one, accepted by the driver, with the hash of its content and
-- the hash of a normal form that is not empty.
pub record IsPrepared (driver : Driver) (sha256_hex : String → String) (a : CollectedArtifact)
    (p : PreparedArtifact) : Type 0 where
  pub from : p.artifact ≡ a
  pub primary : p.is_primary ≡ a.is_primary
  pub raw : p.raw_hash ≡ sha256_hex a.content
  pub accepted : (v : ValidationResult) × (driver.validate a ≡ ok v) × (v.valid ≡ true)
  pub normal :
      (text : String) × (driver.normalize a ≡ bytes text)
      × (text ≢ "")
      × (p.normalized_hash ≡ sha256_hex text)

require-ok : (b : Bool) (e : Failure) (u : Unit {0}) → require b e ≡ ok u → b ≡ true
require-ok true e u h = refl
require-ok false e u h = cc

normalize_artifact-ok :
    (n : Normalized) (text : String)
    → normalize_artifact n ≡ ok text
    → (n ≡ bytes text) × (text ≢ "")
unfolding normalize_artifact
normalize_artifact-ok (bytes t) text h =
    let empty : (t == "" ≡ true) ↔ (t ≡ "") = string_eq.same_iff t "" in
    (ground arith, ground arith)
normalize_artifact-ok not_bytes text h = (cc, cc)
normalize_artifact-ok invalid text h = (cc, cc)
normalize_artifact-ok (raises e) text h = (cc, cc)

prepare_each-All₂ :
    (driver : Driver) (sha256_hex : String → String) (artifacts : List CollectedArtifact)
    (items : List PreparedArtifact)
    → prepare_each driver sha256_hex artifacts ≡ ok items
    → All₂ (IsPrepared driver sha256_hex) artifacts items
unfolding prepare_each
prepare_each-All₂ driver sha256_hex [] items h =
    subst (All₂ (IsPrepared driver sha256_hex) []) (ok-injective h) tt
prepare_each-All₂ driver sha256_hex (a ∷ rest) items h =
    let (v, h0, r0) = >>=-eq-ok (driver.validate a) _ h in
    let (u, h1, r1) =
      >>=-eq-ok (require v.valid (operation_error v.error_code v.safe_message)) _ r0 in
    let (text, h2, r2) = >>=-eq-ok (normalize_artifact (driver.normalize a)) _ r1 in
    let (others, h3, r3) = >>=-eq-ok (prepare_each driver sha256_hex rest) _ r2 in
    let (is_bytes, filled) = normalize_artifact-ok (driver.normalize a) text h2 in
    subst (All₂ (IsPrepared driver sha256_hex) (a ∷ rest)) (ok-injective r3) (
      record {
        from = refl;
        primary = refl;
        raw = refl;
        accepted = (v, h0, require-ok v.valid _ u h1);
        normal = (text, is_bytes, filled, refl);
      },
      prepare_each-All₂ driver sha256_hex rest others h3,
    )

-- When the preparation succeeds, exactly one artifact is primary, no two have the same type, and
-- every artifact, in order, is prepared from what the driver returned.
pub prepare_artifacts-ok :
    (driver : Driver) (sha256_hex : String → String) (artifacts : List CollectedArtifact)
    (items : List PreparedArtifact)
    → prepare_artifacts driver sha256_hex artifacts ≡ ok items
    → (count_if is_primary artifacts ≡ 1)
      × (has_duplicate_types artifacts ≡ false)
      × All₂ (IsPrepared driver sha256_hex) artifacts items
unfolding prepare_artifacts
prepare_artifacts-ok driver sha256_hex artifacts items h =
    let (u0, h0, r0) = >>=-eq-ok (require (not (is_empty artifacts)) _) _ h in
    let (u1, h1, r1) = >>=-eq-ok (require (not (has_duplicate_types artifacts)) _) _ r0 in
    let (u2, h2, r2) = >>=-eq-ok (require (nat_beq (count_if is_primary artifacts) 1) _) _ r1 in
    let single = require-ok (nat_beq (count_if is_primary artifacts) 1) _ u2 h2 in
    let unique = require-ok (not (has_duplicate_types artifacts)) _ u1 h1 in
    (
      (nat_beq_iff (count_if is_primary artifacts) 1).0 single,
      ground arith,
      prepare_each-All₂ driver sha256_hex artifacts items r2,
    )
