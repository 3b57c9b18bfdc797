-- ===== src/Catalog/Consistency.antt =====
-- What the entries of a loaded catalog satisfy: the checks of src/domain/catalog/validation.rs as
-- `load_providers` of src/domain/catalog/loading.rs composes them.
use mathlib.Core.Path.{subst}
use mathlib.Core.List.{append_assoc, append-nil}
use prelay_server.Base.{
  Option, none, some, ◌⊎◌, Bool-cases, if-cases, ◌≡◌, ◌≢◌, inl, inr, sym, ◌∙◌, String, str_eq,
  eq_iff, List, [], ◌∷◌, ◌++◌, true, false, not, ◌||◌, ◌&&◌, arith, map, All, contains_str,
  Distinct, Option-cases, str_trim, All-append, is_some,
}
use prelay_server.Base.Assoc.{get, insert, All-insert}
use prelay_server.Result.{Result, ok, refuse_if, ok_or, ok_or-some, ◌>>=◌, ◌>>◌, after, ok_inj}
use prelay_server.Catalog.{
  ProviderProtocol, Failure, RawProvider, RawRequestHeaderValue, CatalogRequestHeader,
  CatalogRequestHeaderValue, session_id, literal,
}
use prelay_server.Catalog.Models.{is_blank, error}
use prelay_server.Catalog.Entries.{
  Parsers, Strings, required_value, contains_protocol, check_references,
  validate_provider_model_references, collect_headers, header_value, validate_request_headers,
  collect_names, validate_upstream_model_names, collect_urls, validate_protocol_base_urls,
  protocol_key, validate_proxy_url, check_scheme,
}

outside-cons :
    (x : String) (known xs : List String)
    → All (λ y. contains_str y (x ∷ known) ≡ false) xs
    → All (λ y. x ≢ y) xs × All (λ y. contains_str y known ≡ false) xs
unfolding contains_str
outside-cons x known [] all = (tt, tt)
outside-cons x known (y ∷ ys) all = ground (arith, eq_iff x y, all, outside-cons x known ys all.1)

check_references_lem {ℓ} :
    {T : Type ℓ} (id category : String) (models : List (String × T)) (known ids : List String)
    → check_references id category models known ids ≡ ok tt
    → All (λ m. contains_str m known ≡ false) ids
      × (Distinct ids × All (λ m. is_some (get m models) ≡ true) ids)
unfolding check_references Distinct
check_references_lem id category models known [] h = (tt, (tt, tt))
check_references_lem id category models known (m ∷ ms) h =
    let (fresh, (distinct, exist)) =
      check_references_lem id category models (m ∷ known) ms (ground (arith, h)) in
    let (other, outside) = outside-cons m known ms fresh in
    ground (arith, h, distinct, exist, other, outside)

-- The models that an accepted provider refers to are different ones of the catalog.
pub validate_provider_model_references_lem {ℓ} :
    {T : Type ℓ} (id category : String) (ids : List String) (models : List (String × T))
    → validate_provider_model_references id category ids models ≡ ok tt
    → Distinct ids × All (λ m. is_some (get m models) ≡ true) ids
unfolding validate_provider_model_references
validate_provider_model_references_lem id category ids models h =
    (check_references_lem id category models [] ids h).1

pub required_value_lem :
    (label value result : String) → required_value label value ≡ ok result → result ≢ ""
unfolding required_value is_blank
required_value_lem label value result h = ground (arith, eq_iff result "", h)

-- A header that authentication does not use.
abbrev pub IsFree : CatalogRequestHeader → Type 0
IsFree h = (h.name ≢ "authorization") × (h.name ≢ "proxy-authorization")

-- A value that a header may have: the session's id, or a text that is not empty.
abbrev pub IsValue : Parsers → CatalogRequestHeaderValue → Type 0
IsValue parsers session_id = Unit
IsValue parsers (literal value) = (value ≢ "") × (parsers.is_header_value value ≡ true)

-- A header with a name that the library gives back, and with a value that it takes.
abbrev pub IsHeader : Parsers → CatalogRequestHeader → Type 0
IsHeader parsers h =
    IsFree h
    × ((written : String) × (parsers.header_name written ≡ some h.name))
    × IsValue parsers h.value

abbrev pub names_of : List CatalogRequestHeader → List String
names_of = map (λ h. h.name)

header_value-IsValue :
    (parsers : Parsers) (id name : String) (raw : RawRequestHeaderValue)
    (value : CatalogRequestHeaderValue)
    → header_value parsers id name raw ≡ ok value
    → IsValue parsers value
unfolding header_value
header_value-IsValue parsers id name (RawRequestHeaderValue.literal raw) value h =
    after (required_value "请求头值" raw) _ h λ text named h.
      after (refuse_if (not (parsers.is_header_value text)) _) _ h λ _ taken h.
        subst (IsValue parsers) (ok_inj h)
          (required_value_lem "请求头值" raw text named, ground (arith, taken))
header_value-IsValue parsers id name (RawRequestHeaderValue.source raw) value h =
    elim (Bool-cases (str_eq (str_trim raw.source) "session_id")) [
      | inl known ↦ subst (IsValue parsers) (ok_inj (rw known at h)) tt
      | inr other ↦ absurd (ground (arith, h, other))
    ]

collect_headers_lem :
    (parsers : Parsers) (id : String) (known : List String) (headers : List CatalogRequestHeader)
    (raw : List (String × RawRequestHeaderValue)) (hs : List CatalogRequestHeader)
    → collect_headers parsers id known headers raw ≡ ok hs
    → (new : List CatalogRequestHeader) × (hs ≡ headers ++ new)
      × All (IsHeader parsers) new
      × All (λ n. contains_str n known ≡ false) (names_of new)
      × Distinct (names_of new)
unfolding collect_headers Distinct
collect_headers_lem parsers id known headers [] hs h =
    ([], ground (arith, append-nil headers), tt, tt, tt)
collect_headers_lem parsers id known headers ((raw_name, raw_value) ∷ rest) hs h =
    after (ok_or (parsers.header_name (str_trim raw_name)) _) _ h λ name given h.
      after (refuse_if (str_eq name "authorization" || str_eq name "proxy-authorization") _) _ h
        λ _ free h. after (refuse_if (contains_str name known) _) _ h λ _ fresh h.
          after (header_value parsers id name raw_value) _ h λ value valued h.
            let entry : CatalogRequestHeader = record { name = name; value = value } in
            let (new, same, all, outside, distinct) =
              collect_headers_lem parsers id (name ∷ known) (headers ++ entry ∷ []) rest hs h in
            let (other, unknown) = outside-cons name known (names_of new) outside in
            (
              entry ∷ new,
              same ∙ append_assoc headers (entry ∷ []) new,
              (
                (
                  ground
                      (arith, free, eq_iff name "authorization", eq_iff name "proxy-authorization"),
                  (str_trim raw_name, ok_or-some (parsers.header_name (str_trim raw_name)) _ given),
                  header_value-IsValue parsers id name raw_value value valued,
                ),
                all,
              ),
              (ground (arith, fresh), unknown),
              (other, distinct),
            )

-- Accepted request headers have different names, none of which is one that authentication sets, and
-- values that a header may have.
pub validate_request_headers_lem :
    (parsers : Parsers) (id : String) (raw : RawProvider) (hs : List CatalogRequestHeader)
    → validate_request_headers parsers id raw ≡ ok hs
    → All (IsHeader parsers) hs × Distinct (names_of hs)
unfolding validate_request_headers
validate_request_headers_lem parsers id raw hs h =
    let (new, same, all, outside, distinct) =
      collect_headers_lem parsers id [] [] raw.request_headers hs h in
    subst (λ l. All (IsHeader parsers) l × Distinct (names_of l)) (sym same) (all, distinct)

-- Every renamed model is one that the provider refers to, and its name is not empty.
abbrev pub Renames : List String → List String → Strings → Type 0
Renames languages images =
    All (λ (m, u). ((contains_str m languages || contains_str m images) ≡ true) × (u ≢ ""))

collect_names_lem :
    (id : String) (raw : RawProvider) (names rest result : Strings)
    → Renames raw.language_models raw.image_generation_models names
    → collect_names id raw names rest ≡ ok result
    → Renames raw.language_models raw.image_generation_models result
unfolding collect_names
collect_names_lem id raw names [] result v h =
    subst (Renames raw.language_models raw.image_generation_models) (ok_inj h) v
collect_names_lem id raw names ((m, u) ∷ rest) result v h =
    let unknown =
      not (contains_str m raw.language_models)
      && not (contains_str m raw.image_generation_models) in
    after (refuse_if unknown _) _ h λ _ known h.
      after (required_value "上游模型名称" u) _ h λ name named h.
        collect_names_lem id raw (insert m name names) rest result
          (All-insert _ m name names
            (ground (arith, known), required_value_lem "上游模型名称" u name named) v)
          h

pub validate_upstream_model_names-Renames :
    (id : String) (raw : RawProvider) (result : Strings)
    → validate_upstream_model_names id raw ≡ ok result
    → Renames raw.language_models raw.image_generation_models result
unfolding validate_upstream_model_names
validate_upstream_model_names-Renames id raw result h =
    collect_names_lem id raw [] raw.upstream_model_names result tt h

-- An address for a declared protocol.
abbrev pub IsAddress : List ProviderProtocol → ProviderProtocol × String → Type 0
IsAddress protocols (p, url) = (contains_protocol p protocols ≡ true) × (url ≢ "")

collect_urls_lem :
    (id : String) (raw : RawProvider) (urls : List (ProviderProtocol × String))
    (ordered : List ProviderProtocol) (result : List (ProviderProtocol × String))
    → All (IsAddress raw.protocols) urls
    → collect_urls id raw urls ordered ≡ ok result
    → All (IsAddress raw.protocols) result
unfolding collect_urls
collect_urls_lem id raw urls [] result all h = ground (arith, h, all)
collect_urls_lem id raw urls (p ∷ ps) result all h =
    elim (Option-cases (get (protocol_key p) raw.protocol_base_urls)) [
      | inl missing ↦ collect_urls_lem id raw urls ps result all (ground (arith, h, missing))
      | inr (url, found) ↦
          let declared = contains_protocol p raw.protocols in
          let added : Result Failure (List (ProviderProtocol × String)) = (do
            refuse_if (not declared)
                (error ("供应商 " ∷ id ∷ " 为未声明协议 " ∷ protocol_key p ∷ " 配置了 URL" ∷ []))
            url ← required_value "协议 URL" url
            collect_urls id raw (urls ++ (p, url) ∷ []) ps) in
          let h0 : added ≡ ok result = ground (arith, h, found) in
          after (refuse_if (not declared) _) _ h0 λ _ known h.
            after (required_value "协议 URL" url) _ h λ address named h.
              let new : IsAddress raw.protocols (p, address) =
                (ground (arith, known), required_value_lem "协议 URL" url address named) in
              collect_urls_lem id raw (urls ++ (p, address) ∷ []) ps result
                (All-append (IsAddress raw.protocols) urls _ all (new, tt)) h
    ]

pub validate_protocol_base_urls_lem :
    (ordered : List ProviderProtocol) (id : String) (raw : RawProvider) (base_url : String)
    (urls : List (ProviderProtocol × String))
    → validate_protocol_base_urls ordered id raw base_url ≡ ok urls
    → All (IsAddress raw.protocols) urls
unfolding validate_protocol_base_urls
validate_protocol_base_urls_lem ordered id raw base_url urls h =
    after (collect_urls id raw [] ordered) _ h λ found collected h.
      subst (All (IsAddress raw.protocols)) (ground (arith, h))
        (collect_urls_lem id raw [] ordered found tt collected)

-- A proxy's address that the library reads, over one of the two schemes.
abbrev pub IsProxy : Parsers → Option String → Type 0
IsProxy parsers none = Unit
IsProxy parsers (some url) =
    (scheme : String) × (parsers.url_scheme url ≡ some scheme)
    × ((scheme ≡ "http") ⊎ (scheme ≡ "https"))

check_scheme-IsProxy :
    (parsers : Parsers) (id url scheme : String) (result : Option String)
    → parsers.url_scheme url ≡ some scheme
    → check_scheme id url scheme ≡ ok result
    → IsProxy parsers result
unfolding check_scheme
check_scheme-IsProxy parsers id url scheme result read h =
    elim (if-cases (str_eq scheme "http" || str_eq scheme "https") _ _ h) [
      | inl (allowed, same) ↦ subst (IsProxy parsers) (ok_inj same) (
        scheme,
        read,
        elim (Bool-cases (str_eq scheme "http")) [
          | inl http ↦ inl ((eq_iff scheme "http").0 http)
          | inr other ↦ inr ((eq_iff scheme "https").0 (ground (arith, allowed, other)))
        ],
      )
      | inr (_, refused) ↦ absurd (ground (arith, refused))
    ]

pub validate_proxy_url-IsProxy :
    (parsers : Parsers) (id : String) (raw result : Option String)
    → validate_proxy_url parsers id raw ≡ ok result
    → IsProxy parsers result
unfolding validate_proxy_url
validate_proxy_url-IsProxy parsers id none result h = subst (IsProxy parsers) (ok_inj h) tt
validate_proxy_url-IsProxy parsers id (some value) result h =
    elim (if-cases (is_blank value) _ _ h) [
      | inl (blank, same) ↦ subst (IsProxy parsers) (ok_inj same) tt
      | inr (given, h) ↦ after (ok_or (parsers.url_scheme (str_trim value)) _) _ h λ scheme read h.
          check_scheme-IsProxy parsers id (str_trim value) scheme result
            (ok_or-some (parsers.url_scheme (str_trim value)) _ read) h
    ]
