-- ===== src/Catalog/Entries.antt =====
-- Which providers the catalog accepts: the provider half of src/domain/catalog/validation.rs. The
-- order of the protocols is a constant of their crate, and the parsers of header names, header
-- values and addresses are third-party: they are arguments.
use prelay_server.Base.{
  ℕ, ◌+◌, String, str_eq, Option, none, some, List, [], ◌∷◌, ◌++◌, Bool, true, false, not, ◌||◌,
  ◌&&◌, if◌then◌else◌, leb, ◌==◌, length, is_empty, contains_str, str_trim, is_some,
}
use prelay_server.Base.Assoc.{get, insert}
use prelay_server.Result.{Result, ok, err, refuse_if, ok_or, ◌>>=◌, ◌>>◌}
use prelay_server.Catalog.{
  ProviderProtocol, responses, chat_completions, images_generations, Failure, panicked, RawProvider,
  RawRequestHeaderValue, CatalogRequestHeader, CatalogRequestHeaderValue, session_id,
}
use prelay_server.Catalog.Models.{Checked, error, is_some_and, is_blank}

abbrev pub Strings : Type 0
Strings = List (String × String)

abbrev pub same_protocol : ProviderProtocol → ProviderProtocol → Bool
same_protocol responses responses = true
same_protocol chat_completions chat_completions = true
same_protocol images_generations images_generations = true
same_protocol _ _ = false

unfoldable pub contains_protocol : ProviderProtocol → List ProviderProtocol → Bool
contains_protocol p [] = false
contains_protocol p (q ∷ qs) = same_protocol q p || contains_protocol p qs

unfoldable pub position : List ProviderProtocol → ProviderProtocol → Option ℕ
position [] p = none
position (q ∷ qs) p =
    let later = position qs p in
    if same_protocol q p then some 0 else elim later [ none ↦ none | some n ↦ some (n + 1) ]

unfoldable pub protocol_key : ProviderProtocol → String
protocol_key chat_completions = "chat_completions"
protocol_key responses = "responses"
protocol_key images_generations = "images_generations"

unfoldable pub required_value : String → String → Result Failure String
unfolding is_blank
required_value label value =
    if is_blank value then err (error (label ∷ "不能为空" ∷ [])) else ok (str_trim value)

unfoldable pub validate_order :
    List ProviderProtocol → String → Option ℕ → List ProviderProtocol → Checked
unfolding position
validate_order ordered provider_id previous [] = ok tt
validate_order ordered provider_id previous (protocol ∷ protocols) = do
  position ← ok_or (position ordered protocol) (panicked "all protocol enum variants are ordered")
  refuse_if (is_some_and previous (leb position))
      (error ("供应商 " ∷ provider_id ∷ " 的 protocols 未按固定顺序排列" ∷ []))
  validate_order ordered provider_id (some position) protocols

unfoldable pub validate_protocols : List ProviderProtocol → String → List ProviderProtocol → Checked
unfolding validate_order
validate_protocols ordered provider_id protocols = do
  refuse_if (is_empty protocols) (error ("供应商 " ∷ provider_id ∷ " 未配置协议" ∷ []))
  validate_order ordered provider_id none protocols

unfoldable pub collect_urls :
    String
    → RawProvider
    → List (ProviderProtocol × String)
    → List ProviderProtocol
    → Result Failure (List (ProviderProtocol × String))
unfolding protocol_key contains_protocol required_value get
collect_urls provider_id provider urls [] = ok urls
collect_urls provider_id provider urls (protocol ∷ ordered) =
    let skipped = collect_urls provider_id provider urls ordered in
    let key = protocol_key protocol in
    elim (get key provider.protocol_base_urls) [
      | none ↦ skipped
      | some url ↦ do
        refuse_if (not (contains_protocol protocol provider.protocols))
            (error ("供应商 " ∷ provider_id ∷ " 为未声明协议 " ∷ key ∷ " 配置了 URL" ∷ []))
        url ← required_value "协议 URL" url
        collect_urls provider_id provider (urls ++ (protocol, url) ∷ []) ordered
    ]

unfoldable pub validate_protocol_base_urls :
    List ProviderProtocol
    → String
    → RawProvider
    → String
    → Result Failure (List (ProviderProtocol × String))
unfolding collect_urls
validate_protocol_base_urls ordered provider_id provider base_url = do
  urls ← collect_urls provider_id provider [] ordered
  refuse_if (not (length provider.protocol_base_urls == length urls))
      (error ("供应商 " ∷ provider_id ∷ " 配置了未知协议 URL" ∷ []))
  refuse_if (str_eq base_url "") (error ("供应商 " ∷ provider_id ∷ " 的默认 URL 不能为空" ∷ []))
  ok urls

unfoldable pub check_references {ℓ} :
    {T : Type ℓ} → String → String → List (String × T) → List String → List String → Checked
unfolding contains_str get
check_references provider_id category models unique_models [] = ok tt
check_references provider_id category models unique_models (model_id ∷ model_ids) = do
  refuse_if (contains_str model_id unique_models)
      (error ("供应商 " ∷ provider_id ∷ " 重复引用" ∷ category ∷ " " ∷ model_id ∷ []))
  refuse_if (not (is_some (get model_id models)))
      (error ("供应商 " ∷ provider_id ∷ " 引用了未知" ∷ category ∷ " " ∷ model_id ∷ []))
  check_references provider_id category models (model_id ∷ unique_models) model_ids

unfoldable pub validate_provider_model_references {ℓ} :
    {T : Type ℓ} → String → String → List String → List (String × T) → Checked
unfolding check_references
validate_provider_model_references provider_id category model_ids models =
    check_references provider_id category models [] model_ids

-- What the catalog uses of the HTTP and URL libraries: `HeaderName::from_bytes`, whether
-- `HeaderValue::from_bytes` succeeds, and the scheme that `Url::parse` finds.
pub record Parsers : Type 0 where
  pub header_name : String → Option String
  pub is_header_value : String → Bool
  pub url_scheme : String → Option String

unfoldable pub header_value :
    Parsers → String → String → RawRequestHeaderValue → Result Failure CatalogRequestHeaderValue
unfolding required_value
header_value parsers provider_id name (RawRequestHeaderValue.literal value) = do
  value ← required_value "请求头值" value
  refuse_if (not (parsers.is_header_value value))
      (error ("供应商 " ∷ provider_id ∷ " 的请求头 " ∷ name ∷ " 值无效" ∷ []))
  ok (CatalogRequestHeaderValue.literal value)
header_value parsers provider_id name (RawRequestHeaderValue.source source) =
    let other = str_trim source.source in
    if str_eq other "session_id"
    then ok session_id
    else err (error ("供应商 " ∷ provider_id ∷ " 的请求头 " ∷ name ∷ " 来源无效: " ∷ other ∷ []))

unfoldable pub collect_headers :
    Parsers
    → String
    → List String
    → List CatalogRequestHeader
    → List (String × RawRequestHeaderValue)
    → Result Failure (List CatalogRequestHeader)
unfolding header_value contains_str str_trim
collect_headers parsers provider_id names headers [] = ok headers
collect_headers parsers provider_id names headers ((raw_name, raw_value) ∷ rest) = do
  name ←
      ok_or (parsers.header_name (str_trim raw_name))
        (error ("供应商 " ∷ provider_id ∷ " 的请求头名称无效: " ∷ raw_name ∷ []))
  refuse_if (str_eq name "authorization" || str_eq name "proxy-authorization")
      (error ("供应商 " ∷ provider_id ∷ " 的认证头 " ∷ name ∷ " 必须由 auth_scheme 管理" ∷ []))
  refuse_if (contains_str name names) (error ("供应商 " ∷ provider_id ∷ " 重复声明请求头 " ∷ name ∷ []))
  value ← header_value parsers provider_id name raw_value
  collect_headers parsers provider_id (name ∷ names)
      (headers ++ record { name = name; value = value } ∷ []) rest

unfoldable pub validate_request_headers :
    Parsers → String → RawProvider → Result Failure (List CatalogRequestHeader)
unfolding collect_headers
validate_request_headers parsers provider_id provider =
    collect_headers parsers provider_id [] [] provider.request_headers

unfoldable pub collect_names : String → RawProvider → Strings → Strings → Result Failure Strings
unfolding contains_str required_value insert
collect_names provider_id provider names [] = ok names
collect_names provider_id provider names ((model_id, upstream_model) ∷ rest) = do
  refuse_if
      (not (contains_str model_id provider.language_models)
        && not (contains_str model_id provider.image_generation_models))
      (error ("供应商 " ∷ provider_id ∷ " 为未引用的模型 " ∷ model_id ∷ " 配置了上游名称" ∷ []))
  upstream_model ← required_value "上游模型名称" upstream_model
  collect_names provider_id provider (insert model_id upstream_model names) rest

unfoldable pub validate_upstream_model_names : String → RawProvider → Result Failure Strings
unfolding collect_names
validate_upstream_model_names provider_id provider =
    collect_names provider_id provider [] provider.upstream_model_names

unfoldable pub check_scheme : String → String → String → Result Failure (Option String)
check_scheme provider_id value scheme =
    if str_eq scheme "http" || str_eq scheme "https"
    then ok (some value)
    else err (error ("供应商 " ∷ provider_id ∷ " 的代理地址只支持 http 或 https，收到 " ∷ scheme ∷ []))

unfoldable pub validate_proxy_url :
    Parsers → String → Option String → Result Failure (Option String)
unfolding is_blank check_scheme
validate_proxy_url parsers provider_id none = ok none
validate_proxy_url parsers provider_id (some value) = if is_blank value then ok none else do
  scheme ←
      ok_or (parsers.url_scheme (str_trim value))
        (error ("供应商 " ∷ provider_id ∷ " 的代理地址不是合法 URL" ∷ []))
  check_scheme provider_id (str_trim value) scheme
