-- ===== src/Storage/Visibility.antt =====
-- Who sees and who may use a provider: src/store/storage/provider_visibility.rs. The queries are the
-- database's, and stand in the interface `Database`; each may fail.
use Prim.Native.String.{◌++◌ as str_append}
use prelay_server.Base.{
  String, str_eq, Option, none, some, List, [], ◌∷◌, Bool, true, false, not, ◌&&◌, if◌then◌else◌,
  ◌==◌, length, is_empty, contains_str, hash_set, is_some,
}
use prelay_server.Result.{Result, ok, err, refuse_if, ok_or, ◌>>=◌, ◌>>◌}
use prelay_server.Storage.{StorageError, ProviderModel}

pub data ProviderVisibility : Type 0 where
  private selected all : ProviderVisibility

-- The columns of an identity in use.
pub record Identity : Type 0 where
  pub id : String
  pub display_name : String

pub record VisibleProvider : Type 0 where
  pub provider : ProviderModel
  pub owner_identity_id : String
  pub owner_display_name : String
  pub visibility : ProviderVisibility
  pub can_manage : Bool

pub record UpdateProviderSharingRequest : Type 0 where
  pub visibility : ProviderVisibility
  pub identity_ids : List String

pub record ProviderSharingResponse : Type 0 where
  pub visibility : ProviderVisibility
  pub selected_identity_ids : List String
  pub can_manage : Bool

abbrev pub Answer : Type 0 → Type 0
Answer A = Result StorageError A

-- The queries: a provider, an identity, and whether a provider is shared with an identity; the
-- identities that a provider is shared with, in their order, and those of a list that exist; whether
-- a transaction begins and ends; and the changes to a provider's visibility and shares.
pub record Database : Type 1 where
  pub Db : Type 0
  pub find_provider : Db → String → Answer (Option ProviderModel)
  pub find_identity : Db → String → Answer (Option Identity)
  pub find_share : Db → String → String → Answer Bool
  pub grantees : Db → String → Answer (List String)
  pub identities_in : Db → List String → Answer (List Identity)
  pub begin : Db → Answer (Unit {0})
  pub commit : Db → Answer (Unit {0})
  pub set_visibility : Db → String → String → Answer Db
  pub delete_shares : Db → String → Answer Db
  pub insert_share : Db → String → String → String → Answer Db

unfoldable pub parse_visibility : String → Answer ProviderVisibility
parse_visibility value =
    if str_eq value "private"
    then ok private
    else if str_eq value "selected"
    then ok selected
    else if str_eq value "all"
    then ok all
    else err (StorageError.invalid_provider_sharing (str_append "unknown visibility " value))

unfoldable pub visibility_value : ProviderVisibility → String
visibility_value private = "private"
visibility_value selected = "selected"
visibility_value all = "all"

abbrev pub is_selected : ProviderVisibility → Bool
is_selected selected = true
is_selected _ = false

module _ (database : Database) where
  open database use {
    Db, find_provider, find_identity, find_share, grantees, identities_in, set_visibility,
    delete_shares, insert_share, begin, commit,
  }

  -- Whether an identity that is not the owner sees a provider.
  unfoldable pub is_granted : Db → String → ProviderModel → ProviderVisibility → Answer Bool
  is_granted db identity_id provider private = ok false
  is_granted db identity_id provider all = do
    identity ← find_identity db identity_id
    ok (is_some identity)
  is_granted db identity_id provider selected = find_share db provider.id identity_id

  unfoldable pub with_owner :
      Db → ProviderModel → ProviderVisibility → Bool → Bool → Answer (Option VisibleProvider)
  with_owner db provider visibility is_owner false = ok none
  with_owner db provider visibility is_owner true = do
    found ← find_identity db provider.identity_id
    owner ← ok_or found StorageError.identity_not_found
    ok (
        some (record {
          provider = provider;
          owner_identity_id = owner.id;
          owner_display_name = owner.display_name;
          visibility = visibility;
          can_manage = is_owner;
        }))

  unfoldable pub visible_provider : Db → String → ProviderModel → Answer (Option VisibleProvider)
  unfolding parse_visibility is_granted with_owner
  visible_provider db identity_id provider = do
    visibility ← parse_visibility provider.visibility
    let is_owner = str_eq provider.identity_id identity_id
    visible ← if is_owner then ok true else is_granted db identity_id provider visibility
    with_owner db provider visibility is_owner visible

  unfoldable pub get_visible_provider : Db → String → String → Answer VisibleProvider
  unfolding visible_provider
  get_visible_provider db identity_id provider_id = do
    found ← find_provider db provider_id
    provider ← ok_or found StorageError.provider_not_visible
    visible ← visible_provider db identity_id provider
    ok_or visible StorageError.provider_not_visible

  unfoldable pub usable : Db → String → Option ProviderModel → Answer Bool
  unfolding visible_provider
  usable db identity_id none = ok false
  usable db identity_id (some provider) = do
    visible ← visible_provider db identity_id provider
    ok (is_some visible)

  unfoldable pub can_use_provider : Db → String → String → Answer Bool
  unfolding usable
  can_use_provider db identity_id provider_id = do
    found ← find_provider db provider_id
    usable db identity_id found

  unfoldable pub get_provider_sharing : Db → String → String → Answer ProviderSharingResponse
  unfolding get_visible_provider
  get_provider_sharing db identity_id provider_id = do
    provider ← get_visible_provider db identity_id provider_id
    selected_identity_ids ← grantees db provider_id
    ok (record {
      visibility = provider.visibility;
      selected_identity_ids = selected_identity_ids;
      can_manage = provider.can_manage;
    })

  unfoldable pub refused : Option VisibleProvider → Answer ProviderModel
  refused (some visible) = err StorageError.provider_sharing_not_allowed
  refused none = err StorageError.provider_not_found

  unfoldable pub owned_provider : Db → String → String → Answer ProviderModel
  unfolding visible_provider refused
  owned_provider db identity_id provider_id = do
    found ← find_provider db provider_id
    provider ← ok_or found StorageError.provider_not_found
    if str_eq provider.identity_id identity_id
        then ok provider
        else do visible ← visible_provider db identity_id provider; refused visible

  unfoldable pub validate_sharing_input :
      Db → String → UpdateProviderSharingRequest → Answer (Unit {0})
  unfolding hash_set contains_str
  validate_sharing_input db owner_identity_id input = do
    refuse_if (not (length (hash_set input.identity_ids) == length input.identity_ids))
        (StorageError.invalid_provider_sharing "selected identities must be unique")
    refuse_if (not (is_selected input.visibility) && not (is_empty input.identity_ids)) (
        StorageError.invalid_provider_sharing
          "private and all visibility must not include selected identities")
    if not (is_selected input.visibility) then ok tt else do
      refuse_if (contains_str owner_identity_id input.identity_ids)
          (StorageError.invalid_provider_sharing "provider owner cannot be a selected grantee")
      existing ← identities_in db input.identity_ids
      refuse_if (not (length existing == length input.identity_ids))
          (StorageError.invalid_provider_sharing "selected identity does not exist")

  unfoldable pub insert_shares : Db → String → String → List String → Answer Db
  insert_shares db provider_id created_at [] = ok db
  insert_shares db provider_id created_at (grantee ∷ grantees) = do
    db ← insert_share db provider_id grantee created_at
    insert_shares db provider_id created_at grantees

  -- The transaction, on the rows that it sees.
  unfoldable pub share_provider :
      Db → String → String → UpdateProviderSharingRequest → String → Answer Db
  unfolding owned_provider validate_sharing_input insert_shares visibility_value
  share_provider db identity_id provider_id input created_at = do
    begin db
    provider ← owned_provider db identity_id provider_id
    validate_sharing_input db identity_id input
    db ← set_visibility db provider.id (visibility_value input.visibility)
    db ← delete_shares db provider_id
    db ←
        if is_selected input.visibility
        then insert_shares db provider_id created_at input.identity_ids
        else ok db
    commit db
    ok db

  -- A transaction that fails leaves the database as it was.
  unfoldable pub update_provider_sharing :
      Db
      → String
      → String
      → UpdateProviderSharingRequest
      → String
      → Answer ProviderSharingResponse × Db
  unfolding share_provider get_provider_sharing
  update_provider_sharing db identity_id provider_id input created_at =
      elim (share_provider db identity_id provider_id input created_at) [
        | err error ↦ (err error, db)
        | ok committed ↦ (get_provider_sharing committed identity_id provider_id, committed)
      ]
