-- ===== src/Storage.antt =====
-- The storage's errors, src/store/storage/mod.rs, and the rows that it reads, src/store/entity. The
-- errors of the JSON library and of the database are kept as their texts.
pub mod Visibility
pub mod Lawful
pub mod Transactions
pub mod Sharing
use prelay_server.Base.{String, Option}
use prelay_server.Errors.{ProtocolErrorCode}

pub data StorageError : Type 0 where
  identity_already_registered identity_not_found invalid_credential : StorageError
  provider_not_found : StorageError
  invalid_provider_sharing : String → StorageError
  provider_sharing_not_allowed provider_not_visible provider_not_usable : StorageError
  provider_route_unavailable endpoint_not_found activity_not_found : StorageError
  memory_not_found : StorageError
  invalid_stored_state validation_failed invalid_timestamp : String → StorageError
  invalid_master_key crypto rollout serialization database : String → StorageError

unfoldable pub code : StorageError → ProtocolErrorCode
code StorageError.identity_already_registered = ProtocolErrorCode.identity_already_registered
code StorageError.invalid_credential = ProtocolErrorCode.invalid_credential
code (StorageError.invalid_provider_sharing m) = ProtocolErrorCode.invalid_provider_sharing
code StorageError.provider_sharing_not_allowed = ProtocolErrorCode.provider_sharing_not_allowed
code StorageError.provider_not_visible = ProtocolErrorCode.provider_not_visible
code StorageError.provider_not_usable = ProtocolErrorCode.provider_not_usable
code StorageError.provider_route_unavailable = ProtocolErrorCode.provider_route_unavailable
code StorageError.identity_not_found = ProtocolErrorCode.not_found
code StorageError.provider_not_found = ProtocolErrorCode.not_found
code StorageError.endpoint_not_found = ProtocolErrorCode.not_found
code StorageError.activity_not_found = ProtocolErrorCode.not_found
code StorageError.memory_not_found = ProtocolErrorCode.not_found
code (StorageError.invalid_master_key m) = ProtocolErrorCode.validation_failed
code (StorageError.validation_failed m) = ProtocolErrorCode.validation_failed
code (StorageError.invalid_timestamp m) = ProtocolErrorCode.internal
code (StorageError.invalid_stored_state m) = ProtocolErrorCode.internal
code (StorageError.crypto m) = ProtocolErrorCode.internal
code (StorageError.rollout m) = ProtocolErrorCode.internal
code (StorageError.serialization m) = ProtocolErrorCode.internal
code (StorageError.database m) = ProtocolErrorCode.internal

-- A row of the providers.
pub record ProviderModel : Type 0 where
  pub id : String
  pub identity_id : String
  pub name : String
  pub provider_type : String
  pub visibility : String
  pub base_url : String
  pub api_key_ciphertext : String
  pub capabilities_json : Option String
  pub models_json : Option String
  pub created_at : String
