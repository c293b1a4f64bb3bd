-- ===== src/Gateway/Pipeline/Settings.antt =====
-- game/gateway/src/gateway_login_config.cpp, and `validate` of
-- game/gateway/src/gateway_credential_ingress.cpp: the checks of the settings.
use realm_mesh.Prelude.{
  ℕ, List, [], ◌∷◌, Bool, false, ◌||◌, ltb, ◌==◌, Option, none, some, length, text_eq, Result, ok,
  invalid_argument, throw_if, ◌>>◌, Text,
}
use realm_mesh.Gateway.Pipeline.{
  RealmEndpoint, AdmissionGrantKeySource, GatewayCredentialIngressConfig, GatewayLoginConfig,
}

-- A limit that is zero or above its hard maximum.
abbrev pub out_of_bounds : ℕ → ℕ → Bool
out_of_bounds value hard_max = value == 0 || ltb hard_max value

pub validate_ingress : GatewayCredentialIngressConfig → Result (Unit {0})
validate_ingress c = do
  throw_if
      (out_of_bounds c.max_attach_envelope_bytes 16_384
        || out_of_bounds c.max_identity_token_bytes 4_096
        || out_of_bounds c.max_admission_grant_bytes 4_096
        || out_of_bounds c.max_token_decoded_bytes 3_072
        || out_of_bounds c.source_rate_per_second 10_000
        || out_of_bounds c.source_burst 20_000
        || out_of_bounds c.source_throttle_close_after 16
        || out_of_bounds c.session_attach_attempts 16
        || out_of_bounds c.concurrent_verifications 4_096
        || out_of_bounds c.max_tracked_sources 65_536)
      invalid_argument
  throw_if (ltb c.source_burst c.source_rate_per_second) invalid_argument

-- The inner loop of `validate_key_ring`: another key with the same name.
unfoldable pub has_kid : Text → List AdmissionGrantKeySource → Bool
unfolding text_eq
has_kid kid [] = false
has_kid kid (other ∷ ring) = text_eq other.kid kid || has_kid kid ring

-- The outer loop.
unfoldable pub validate_keys : List AdmissionGrantKeySource → Result (Unit {0})
unfolding has_kid
validate_keys [] = ok tt
validate_keys (source ∷ ring) =
    throw_if (length source.kid == 0 || length source.public_key_environment == 0) invalid_argument
    >> (throw_if (has_kid source.kid ring) invalid_argument >> validate_keys ring)

unfoldable pub validate_key_ring : List AdmissionGrantKeySource → Result (Unit {0})
unfolding validate_keys
validate_key_ring ring = throw_if (length ring == 0) invalid_argument >> validate_keys ring

abbrev pub is_incomplete : Option RealmEndpoint → Bool
is_incomplete none = false
is_incomplete (some realm) = length realm.address == 0 || realm.port == 0

unfoldable pub validate_config : GatewayLoginConfig → Result (Unit {0})
unfolding validate_key_ring validate_ingress
validate_config c = do
  throw_if (c.conn_capacity == 0 || c.fetch_capacity == 0 || c.fetch_workers == 0) invalid_argument
  throw_if (c.fetch_timeout == 0) invalid_argument
  throw_if (c.fetch_retry_base == 0 || c.fetch_retry_max == 0 || ltb 10 c.fetch_retry_max)
      invalid_argument
  throw_if (c.handoff_grace == 0) invalid_argument
  throw_if (is_incomplete c.static_realm) invalid_argument
  throw_if
      (length c.identity_kid == 0
        || length c.identity_issuer == 0
        || length c.admission_grant_issuer == 0
        || length c.deployment_id == 0
        || length c.admission_consumption_prefix == 0
        || c.admission_reservation_ttl == 0)
      invalid_argument
  validate_key_ring c.admission_grant_keys
  throw_if (c.admission_grant_window == 0 || ltb 600 c.admission_grant_window) invalid_argument
  validate_ingress c.credential_ingress
