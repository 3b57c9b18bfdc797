-- ===== src/Storage/Lawful.antt =====
-- What src/store/storage/provider_visibility.rs relies on of the database.
use prelay_server.Base.{◌≡◌, String, str_eq, Option, some, true, false, if◌then◌else◌}
use prelay_server.Result.{ok}
use prelay_server.Storage.{ProviderModel}
use prelay_server.Storage.Visibility.{Answer, Database}

-- The answer after a change of the row's visibility.
abbrev pub made : String → Answer (Option ProviderModel) → Answer (Option ProviderModel)
made value (ok (some p)) = ok (some (record p { visibility = value }))
made value answer = answer

-- A change of the database keeps what is asked of providers, identities or shares.
abbrev pub KeepsProviders : (D : Database) → D.Db → D.Db → Type 0
KeepsProviders D db db' = (j : String) → D.find_provider db' j ≡ D.find_provider db j

abbrev pub KeepsIdentities : (D : Database) → D.Db → D.Db → Type 0
KeepsIdentities D db db' = (j : String) → D.find_identity db' j ≡ D.find_identity db j

-- What the server relies on: a row is found under its own id, and each change that succeeds is seen
-- by the queries that it is about, and by no other.
pub record IsLawful (D : Database) : Type 0 where
  pub find-id :
      (db : D.Db) (id : String) (p : ProviderModel)
      → D.find_provider db id ≡ ok (some p)
      → p.id ≡ id
  pub set-provider :
      (db db' : D.Db) (id v j : String)
      → D.set_visibility db id v ≡ ok db'
      → D.find_provider db' j
        ≡ (if str_eq id j then made v (D.find_provider db j) else D.find_provider db j)
  pub set-identity :
      (db db' : D.Db) (id v : String) → D.set_visibility db id v ≡ ok db' → KeepsIdentities D db db'
  pub delete-provider :
      (db db' : D.Db) (id : String) → D.delete_shares db id ≡ ok db' → KeepsProviders D db db'
  pub delete-identity :
      (db db' : D.Db) (id : String) → D.delete_shares db id ≡ ok db' → KeepsIdentities D db db'
  pub delete-share :
      (db db' : D.Db) (id j : String)
      → D.delete_shares db id ≡ ok db'
      → D.find_share db' id j ≡ ok false
  pub insert-provider :
      (db db' : D.Db) (id grantee t : String)
      → D.insert_share db id grantee t ≡ ok db'
      → KeepsProviders D db db'
  pub insert-identity :
      (db db' : D.Db) (id grantee t : String)
      → D.insert_share db id grantee t ≡ ok db'
      → KeepsIdentities D db db'
  pub insert-share :
      (db db' : D.Db) (id grantee t j : String)
      → D.insert_share db id grantee t ≡ ok db'
      → D.find_share db' id j ≡ (if str_eq grantee j then ok true else D.find_share db id j)
