-- ===== src/Storage/Sharing.antt =====
-- What a change of a provider's sharing comes to, src/store/storage/provider_visibility.rs, over a
-- database whose changes do what they say.
use mathlib.Core.Path.{subst}
use prelay_server.Base.{
  ◌≡◌, ◌≢◌, refl, sym, ap, ◌∙◌, String, str_eq, eq_iff, Option, none, some, List, Bool, true, false,
  ◌||◌, arith, contains_str, inl, inr, ◌⊎◌, is_some,
}
use prelay_server.Result.{ok, err, ◌>>=◌}
use prelay_server.Storage.{StorageError, ProviderModel}
use prelay_server.Storage.Visibility.{
  ProviderVisibility, private, selected, all, Identity, VisibleProvider,
  UpdateProviderSharingRequest, ProviderSharingResponse, Answer, Database, parse_visibility,
  visibility_value, is_granted, with_owner, visible_provider, usable, can_use_provider,
  get_provider_sharing, refused, owned_provider, share_provider, update_provider_sharing,
}
use prelay_server.Storage.Lawful.{IsLawful}
use prelay_server.Storage.Transactions.{share_provider_lem, Selects}

-- Whom a request shares with.
abbrev pub shares_with : ProviderVisibility → List String → String → Bool
shares_with private ids j = false
shares_with all ids j = true
shares_with selected ids j = contains_str j ids

parse-visibility_value : (v : ProviderVisibility) → parse_visibility (visibility_value v) ≡ ok v
unfolding parse_visibility visibility_value
parse-visibility_value private = refl
parse-visibility_value selected = refl
parse-visibility_value all = refl

-- What an identity is told that may not change the sharing of a provider, by whether it may use it.
abbrev pub told : Answer Bool → StorageError
told (ok true) = StorageError.provider_sharing_not_allowed
told (ok false) = StorageError.provider_not_found
told (err error) = error

answer-cases :
    {A : Type 0} (answer : Answer (Option A))
    → ((error : StorageError) × (answer ≡ err error))
      ⊎ ((answer ≡ ok none) ⊎ ((a : A) × (answer ≡ ok (some a))))
answer-cases (err error) = inl (error, refl)
answer-cases (ok none) = inr (inl refl)
answer-cases (ok (some a)) = inr (inr (a, refl))

module _ (D : Database) (lawful : IsLawful D) where
  open D use {Db}

  usable_lem :
      (db : Db) (j : String) (p : ProviderModel) (v : ProviderVisibility) (granted : Bool)
      (owner : Identity)
      → parse_visibility p.visibility ≡ ok v
      → is_granted D db j p v ≡ ok granted
      → D.find_identity db p.identity_id ≡ ok (some owner)
      → usable D db j (some p) ≡ ok (str_eq p.identity_id j || granted)
  unfolding usable visible_provider with_owner
  usable_lem db j p v granted owner parsed asked found = ground (arith, parsed, asked, found)

  granted_lem :
      (db : Db) (j : String) (p : ProviderModel) (ids : List String) (v : ProviderVisibility)
      (i : Identity)
      → Selects D db p.id ids v
      → D.find_identity db j ≡ ok (some i)
      → is_granted D db j p v ≡ ok (shares_with v ids j)
  unfolding is_granted
  granted_lem db j p ids private i selects found = refl
  granted_lem db j p ids all i selects found = ground (arith, found)
  granted_lem db j p ids selected i selects found = selects j

  committed :
      (db db' : Db) (identity_id id : String) (response : ProviderSharingResponse)
      (result : Answer Db)
      → ◌≡◌ {A = Answer ProviderSharingResponse × Db}
          (elim result [
            | err error ↦ (err error, db)
            | ok c ↦ (get_provider_sharing D c identity_id id, c)
          ])
          (ok response, db')
      → result ≡ ok db'
  committed db db' identity_id id response (ok c) h = ap ok (ap (λ r. r.1) h)
  committed db db' identity_id id response (err e) h = absurd (ground (arith, ap (λ r. r.0) h))

  -- Once an owner's change of the sharing is answered, a registered identity may use the provider
  -- exactly if it is the owner, or if the request shares with all, or selects it; provided that the
  -- owner is registered.
  pub update_provider_sharing-can_use_provider :
      (db db' : Db) (identity_id id : String) (input : UpdateProviderSharingRequest) (t : String)
      (response : ProviderSharingResponse) (j : String) (owner i : Identity)
      → update_provider_sharing D db identity_id id input t ≡ (ok response, db')
      → D.find_identity db identity_id ≡ ok (some owner)
      → D.find_identity db j ≡ ok (some i)
      → can_use_provider D db' j id
        ≡ ok (str_eq identity_id j || shares_with input.visibility input.identity_ids j)
  unfolding update_provider_sharing can_use_provider
  update_provider_sharing-can_use_provider db db' identity_id id input t response j owner i h own
        found =
      let done =
        committed db db' identity_id id response (share_provider D db identity_id id input t) h in
      let (p, itself, owned, stored, identities, selects) =
        share_provider_lem D lawful db db' identity_id id input t done in
      let p' : ProviderModel = record p { visibility = visibility_value input.visibility } in
      let chosen : Selects D db' p.id input.identity_ids input.visibility =
        subst (λ k. Selects D db' k input.identity_ids input.visibility) (sym itself) selects in
      let granted =
        granted_lem db' j p' input.identity_ids input.visibility i chosen (identities j ∙ found) in
      let owner_found : D.find_identity db' p.identity_id ≡ ok (some owner) =
        identities p.identity_id ∙ ap (D.find_identity db) owned ∙ own in
      rw stored (
        usable_lem db' j p' input.visibility (shares_with input.visibility input.identity_ids j)
          owner (parse-visibility_value input.visibility) granted owner_found
        ∙ ap (λ k. ok (str_eq k j || shares_with input.visibility input.identity_ids j)) owned)

module _ (D : Database) where
  open D use {Db}

  refused_lem :
      (answer : Answer (Option VisibleProvider))
      → (answer >>= refused D) ≡ err (told (answer >>= (λ visible. ok (is_some visible))))
  unfolding refused
  refused_lem (ok (some visible)) = refl
  refused_lem (ok none) = refl
  refused_lem (err error) = refl

  -- An identity that does not own the provider, be it there or not, changes nothing by asking for
  -- another sharing, and learns no more than from asking whether it may use the provider: sharing is
  -- the owner's if it may, there is no such provider if it may not, and else the query's error. This
  -- is so where the transaction begins.
  pub update_provider_sharing-refusal :
      (db : Db) (identity_id id : String) (input : UpdateProviderSharingRequest) (t : String)
      → D.begin db ≡ ok tt
      → ((p : ProviderModel) → D.find_provider db id ≡ ok (some p) → p.identity_id ≢ identity_id)
      → update_provider_sharing D db identity_id id input t
        ≡ (err (told (can_use_provider D db identity_id id)), db)
  unfolding update_provider_sharing share_provider owned_provider can_use_provider usable
  update_provider_sharing-refusal db identity_id id input t begun other =
      elim (answer-cases (D.find_provider db id)) [
        | inl (error, failing) ↦ ground (arith, begun, failing)
        | inr (inl missing) ↦ ground (arith, begun, missing)
        | inr (inr (p, found)) ↦ ground (
          arith,
          begun,
          found,
          other p found,
          eq_iff p.identity_id identity_id,
          refused_lem (visible_provider D db identity_id p),
        )
      ]
