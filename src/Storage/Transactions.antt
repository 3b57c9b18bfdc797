-- ===== src/Storage/Transactions.antt =====
-- What the queries of one change of a provider's sharing do together,
-- src/store/storage/provider_visibility.rs.
use mathlib.Core.Path.{subst}
use prelay_server.Base.{
  ◌≡◌, ◌≢◌, refl, sym, ap, ◌∙◌, String, str_eq, eq_iff, Option, none, some, List, [], ◌∷◌, true,
  if◌then◌else◌, arith, contains_str, Bool-cases, inl, inr,
}
use prelay_server.Result.{ok, ok_or, ◌>>=◌, after, ok_inj, ok_or-some}
use prelay_server.Storage.{StorageError, ProviderModel}
use prelay_server.Storage.Visibility.{
  ProviderVisibility, private, selected, all, VisibleProvider, UpdateProviderSharingRequest, Answer,
  Database, visibility_value, is_selected, visible_provider, refused, owned_provider,
  validate_sharing_input, insert_shares, share_provider,
}
use prelay_server.Storage.Lawful.{KeepsProviders, KeepsIdentities, IsLawful}

-- Whom a selection shares with; another visibility does not ask for shares.
abbrev pub Selects : (D : Database) → D.Db → String → List String → ProviderVisibility → Type 0
Selects D db id ids selected = (j : String) → D.find_share db id j ≡ ok (contains_str j ids)
Selects D db id ids _ = Unit

module _ (D : Database) (lawful : IsLawful D) where
  open D use {Db}

  not-refused : (found : Option VisibleProvider) (p : ProviderModel) → refused D found ≢ ok p
  unfolding refused
  not-refused none p h = ground arith
  not-refused (some visible) p h = ground arith

  -- Only the owner gets a provider to manage.
  pub owned_provider_lem :
      (db : Db) (identity_id id : String) (p : ProviderModel)
      → owned_provider D db identity_id id ≡ ok p
      → (D.find_provider db id ≡ ok (some p)) × (p.identity_id ≡ identity_id)
  unfolding owned_provider
  owned_provider_lem db identity_id id p h = after (D.find_provider db id) _ h λ found asked h.
      after (ok_or found StorageError.provider_not_found) _ h λ q given h.
        elim (Bool-cases (str_eq q.identity_id identity_id)) [
          | inl own ↦
              let same : q ≡ p = ground (arith, h, own) in
              (
                asked
                    ∙ ap ok (ok_or-some found StorageError.provider_not_found given ∙ ap some same),
                ap (λ r. r.identity_id) (sym same) ∙ (eq_iff q.identity_id identity_id).0 own,
              )
          | inr other ↦
              let rest : Answer ProviderModel = (do
                visible ← visible_provider D db identity_id q
                refused D visible) in
              let h : rest ≡ ok p = ground (arith, h, other) in
              after (visible_provider D db identity_id q) _ h
                λ visible _ h. absurd (not-refused visible p h)
        ]

  insert_shares_lem :
      (db db' : Db) (id t : String) (ids : List String)
      → insert_shares D db id t ids ≡ ok db'
      → KeepsProviders D db db'
        × KeepsIdentities D db db'
        × ((j : String)
            → D.find_share db' id j
              ≡ (if contains_str j ids then ok true else D.find_share db id j))
  unfolding insert_shares contains_str
  insert_shares_lem db db' id t [] h =
      subst
        (λ d.
          KeepsProviders D db d
          × KeepsIdentities D db d
          × ((j : String) → D.find_share d id j ≡ D.find_share db id j))
        (ok_inj h) (λ j. refl, λ j. refl, λ j. refl)
  insert_shares_lem db db' id t (g ∷ gs) h = after (D.insert_share db id g t) _ h λ db1 inserted h.
      let (providers, identities, shares) = insert_shares_lem db1 db' id t gs h in
      (
        λ j. providers j ∙ lawful.insert-provider db db1 id g t inserted j,
        λ j. identities j ∙ lawful.insert-identity db db1 id g t inserted j,
        λ j. ground (arith, shares j, lawful.insert-share db db1 id g t j inserted),
      )

  unchanged : (db db' : Db) → db ≡ db' → KeepsProviders D db db' × KeepsIdentities D db db'
  unchanged db db' same =
      subst (λ d. KeepsProviders D db d × KeepsIdentities D db d) same (λ j. refl, λ j. refl)

  selection_lem :
      (db1 db2 db3 : Db) (id t : String) (ids : List String) (v : ProviderVisibility)
      → D.delete_shares db1 id ≡ ok db2
      → (if is_selected v then insert_shares D db2 id t ids else ok db2) ≡ ok db3
      → KeepsProviders D db2 db3 × KeepsIdentities D db2 db3 × Selects D db3 id ids v
  selection_lem db1 db2 db3 id t ids private deleted h =
      let (providers, identities) = unchanged db2 db3 (ok_inj h) in (providers, identities, tt)
  selection_lem db1 db2 db3 id t ids all deleted h =
      let (providers, identities) = unchanged db2 db3 (ok_inj h) in (providers, identities, tt)
  selection_lem db1 db2 db3 id t ids selected deleted h =
      let (providers, identities, shares) = insert_shares_lem db2 db3 id t ids h in
      (
        providers,
        identities,
        λ j. ground (arith, shares j, lawful.delete-share db1 db2 id j deleted),
      )

  -- What a transaction that commits leaves behind.
  pub share_provider_lem :
      (db db' : Db) (identity_id id : String) (input : UpdateProviderSharingRequest) (t : String)
      → share_provider D db identity_id id input t ≡ ok db'
      → (p : ProviderModel) × (p.id ≡ id)
        × (p.identity_id ≡ identity_id)
        × (D.find_provider db' id
            ≡ ok (some (record p { visibility = visibility_value input.visibility })))
        × KeepsIdentities D db db'
        × Selects D db' id input.identity_ids input.visibility
  unfolding share_provider
  share_provider_lem db db' identity_id id input t h =
      let value = visibility_value input.visibility in
      after (D.begin db) _ h λ _ _ h. after (owned_provider D db identity_id id) _ h λ p owned h.
        after (validate_sharing_input D db identity_id input) _ h λ _ _ h.
          after (D.set_visibility db p.id value) _ h λ db1 set h.
            after (D.delete_shares db1 id) _ h λ db2 deleted h.
              after
                (if is_selected input.visibility
                  then insert_shares D db2 id t input.identity_ids
                  else ok db2)
                _ h
                λ db3 inserted h. after (D.commit db3) _ h λ _ _ h.
                  let (found, own) = owned_provider_lem db identity_id id p owned in
                  let itself = lawful.find-id db id p found in
                  let stored : D.find_provider db1 id
                      ≡ ok (some (record p { visibility = value })) =
                    ground (
                      arith,
                      lawful.set-provider db db1 p.id value id set,
                      eq_iff p.id id,
                      itself,
                      found,
                    ) in
                  let (providers, identities, selects) =
                    selection_lem db1 db2 db3 id t input.identity_ids input.visibility deleted
                      inserted in
                  subst
                    (λ d.
                      (q : ProviderModel) × (q.id ≡ id)
                      × (q.identity_id ≡ identity_id)
                      × (D.find_provider d id ≡ ok (some (record q { visibility = value })))
                      × KeepsIdentities D db d
                      × Selects D d id input.identity_ids input.visibility)
                    (ok_inj h)
                    (
                      p,
                      itself,
                      own,
                      providers id ∙ lawful.delete-provider db1 db2 id deleted id ∙ stored,
                      λ j.
                          identities j
                          ∙ lawful.delete-identity db1 db2 id deleted j
                          ∙ lawful.set-identity db db1 p.id value set j,
                      selects,
                    )
