-- ===== src/Examples/Visibility.antt =====
-- Sharing at concrete input, over a database of three lists.
use mathlib.Core.Path.{subst}
use prelay_server.Base.{
  ◌≡◌, ◌≢◌, refl, ap, String, str_eq, eq_iff, Option, none, some, List, [], ◌∷◌, Bool, true, false,
  ◌||◌, ◌&&◌, if◌then◌else◌, arith,
}
use prelay_server.Result.{ok, err, ok_inj}
use prelay_server.Storage.{ProviderModel}
use prelay_server.Storage.Visibility.{
  Answer, Identity, Database, selected, UpdateProviderSharingRequest, ProviderSharingResponse,
  can_use_provider, update_provider_sharing,
}
use prelay_server.Storage.Lawful.{IsLawful, made, KeepsProviders, KeepsIdentities}
use prelay_server.Storage.Sharing.{
  shares_with, told, update_provider_sharing-can_use_provider, update_provider_sharing-refusal,
}

record Rows : Type 0 where
  providers : List ProviderModel
  identities : List Identity
  shares : List (String × String)

row_of : String → List ProviderModel → Option ProviderModel
row_of id [] = none
row_of id (p ∷ ps) = let rest = row_of id ps in if str_eq p.id id then some p else rest

identity_of : String → List Identity → Option Identity
identity_of id [] = none
identity_of id (i ∷ is) = let rest = identity_of id is in if str_eq i.id id then some i else rest

is_shared : String → String → List (String × String) → Bool
is_shared id j [] = false
is_shared id j ((p, g) ∷ shares) = (str_eq p id && str_eq g j) || is_shared id j shares

grantees_of : String → List (String × String) → List String
grantees_of id [] = []
grantees_of id ((p, g) ∷ shares) =
    let rest = grantees_of id shares in if str_eq p id then g ∷ rest else rest

without : String → List (String × String) → List (String × String)
without id [] = []
without id ((p, g) ∷ shares) =
    let rest = without id shares in if str_eq p id then rest else (p, g) ∷ rest

with_visibility : String → String → List ProviderModel → List ProviderModel
with_visibility id v [] = []
with_visibility id v (p ∷ ps) =
    (if str_eq p.id id then record p { visibility = v } else p) ∷ with_visibility id v ps

existing : List String → List Identity → List Identity
existing [] is = []
existing (id ∷ ids) is = elim (identity_of id is) [
  | none ↦ existing ids is
  | some i ↦ i ∷ existing ids is
]

abbrev lists : Database
lists = record {
  Db = Rows;
  find_provider = λ db id. ok (row_of id db.providers);
  find_identity = λ db id. ok (identity_of id db.identities);
  find_share = λ db id j. ok (is_shared id j db.shares);
  grantees = λ db id. ok (grantees_of id db.shares);
  identities_in = λ db ids. ok (existing ids db.identities);
  begin = λ db. ok tt;
  commit = λ db. ok tt;
  set_visibility = λ db id v. ok (record db { providers = with_visibility id v db.providers });
  delete_shares = λ db id. ok (record db { shares = without id db.shares });
  insert_share = λ db id g t. ok (record db { shares = (id, g) ∷ db.shares });
}

row_of-id :
    (id : String) (ps : List ProviderModel) (p : ProviderModel) → row_of id ps ≡ some p → p.id ≡ id
unfolding row_of
row_of-id id [] p h = cc
row_of-id id (q ∷ ps) p h = ground (arith, eq_iff q.id id, row_of-id id ps p, h)

abbrev changed : String → Option ProviderModel → Option ProviderModel
changed v none = none
changed v (some p) = some (record p { visibility = v })

row_of-with_visibility :
    (id v j : String) (ps : List ProviderModel)
    → row_of j (with_visibility id v ps)
      ≡ (if str_eq id j then changed v (row_of j ps) else row_of j ps)
unfolding row_of with_visibility
row_of-with_visibility id v j [] = ground arith
row_of-with_visibility id v j (p ∷ ps) =
    ground (arith, eq_iff p.id id, eq_iff p.id j, eq_iff id j, row_of-with_visibility id v j ps)

is_shared-without :
    (id j : String) (shares : List (String × String)) → is_shared id j (without id shares) ≡ false
unfolding is_shared without
is_shared-without id j [] = refl
is_shared-without id j ((p, g) ∷ shares) = ground (arith, is_shared-without id j shares)

set_lem :
    (id v j : String) (ps : List ProviderModel)
    → ok (row_of j (with_visibility id v ps))
      ≡ (if str_eq id j then made v (ok (row_of j ps)) else ok (row_of j ps))
set_lem id v j ps = ground (arith, row_of-with_visibility id v j ps)

insert_lem :
    (id g j : String) (shares : List (String × String))
    → ◌≡◌ {A = Answer Bool}
        (ok (is_shared id j ((id, g) ∷ shares)))
        (if str_eq g j then ok true else ok (is_shared id j shares))
unfolding is_shared
insert_lem id g j shares = ground (arith, eq_iff id id, eq_iff g j)

lists-IsLawful : IsLawful lists
lists-IsLawful = record {
  find-id = λ db id p h. row_of-id id db.providers p (ok_inj h);
  set-provider = λ db db' id v j h.
      subst
        (λ d.
          lists.find_provider d j
          ≡ (if str_eq id j then made v (lists.find_provider db j) else lists.find_provider db j))
        (ok_inj h) (set_lem id v j db.providers);
  set-identity = λ db db' id v h. subst (λ d. KeepsIdentities lists db d) (ok_inj h) (λ j. refl);
  delete-provider = λ db db' id h. subst (λ d. KeepsProviders lists db d) (ok_inj h) (λ j. refl);
  delete-identity = λ db db' id h. subst (λ d. KeepsIdentities lists db d) (ok_inj h) (λ j. refl);
  delete-share = λ db db' id j h.
      subst (λ d. lists.find_share d id j ≡ ok false) (ok_inj h)
        (ap ok (is_shared-without id j db.shares));
  insert-provider =
      λ db db' id g t h. subst (λ d. KeepsProviders lists db d) (ok_inj h) (λ j. refl);
  insert-identity =
      λ db db' id g t h. subst (λ d. KeepsIdentities lists db d) (ok_inj h) (λ j. refl);
  insert-share = λ db db' id g t j h.
      subst
        (λ d. lists.find_share d id j ≡ (if str_eq g j then ok true else lists.find_share db id j))
        (ok_inj h) (insert_lem id g j db.shares);
}

abbrev person : String → Identity
person id = record { id = id; display_name = id }

abbrev shop : ProviderModel
shop = record {
  id = "shop";
  identity_id = "ann";
  name = "Shop";
  provider_type = "openai";
  visibility = "private";
  base_url = "http://shop";
  api_key_ciphertext = "";
  capabilities_json = none;
  models_json = none;
  created_at = "";
}

abbrev before : Rows
before = record {
  providers = shop ∷ [];
  identities = person "ann" ∷ person "ben" ∷ person "cem" ∷ [];
  shares = [];
}

abbrev with_ben : UpdateProviderSharingRequest
with_ben = record { visibility = selected; identity_ids = "ben" ∷ [] }

abbrev shared : Rows
shared = record {
  providers = record shop { visibility = "selected" } ∷ [];
  identities = before.identities;
  shares = ("shop", "ben") ∷ [];
}

abbrev answer : ProviderSharingResponse
answer = record { visibility = selected; selected_identity_ids = "ben" ∷ []; can_manage = true }

ann_shares : update_provider_sharing lists before "ann" "shop" with_ben "now" ≡ (ok answer, shared)
unfolding update_provider_sharing row_of identity_of is_shared grantees_of without with_visibility
    existing
ann_shares = refl

owner_found : lists.find_identity before "ann" ≡ ok (some (person "ann"))
unfolding identity_of
owner_found = refl

ben_found : lists.find_identity before "ben" ≡ ok (some (person "ben"))
unfolding identity_of
ben_found = refl

update_provider_sharing-can_use_provider_example :
    can_use_provider lists shared "ben" "shop"
    ≡ ok (str_eq "ann" "ben" || shares_with selected ("ben" ∷ []) "ben")
update_provider_sharing-can_use_provider_example =
    update_provider_sharing-can_use_provider lists lists-IsLawful before shared "ann" "shop"
      with_ben "now" answer "ben" (person "ann") (person "ben") ann_shares owner_found ben_found

shop_found : lists.find_provider before "shop" ≡ ok (some shop)
unfolding row_of
shop_found = refl

not_bens :
    (p : ProviderModel) → lists.find_provider before "shop" ≡ ok (some p) → p.identity_id ≢ "ben"
not_bens p found h = ground (arith, eq_iff "ann" "ben", shop_found, found, h)

update_provider_sharing-refusal_example :
    update_provider_sharing lists before "ben" "shop" with_ben "now"
    ≡ (err (told (can_use_provider lists before "ben" "shop")), before)
update_provider_sharing-refusal_example =
    update_provider_sharing-refusal lists before "ben" "shop" with_ben "now" refl not_bens
