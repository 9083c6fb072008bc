-- ===== src/Config/Names.antt =====
-- src/config.cpp and src/config_options.hpp: the names of options, and the paths they are set for.
use karu.Base.{
  ℕ, ◌+◌, ◌-◌, Bool, false, ◌&&◌, ◌||◌, List, [], ◌∷◌, ◌++◌, map, Bytes, codes, text_eq, is_empty,
  starts_with, length, drop, leb, ◌==◌, if◌then◌else◌,
}

-- std::toupper and std::tolower in the C locale.
abbrev pub to_upper : ℕ → ℕ
to_upper c = if leb b'a' c && leb c b'z' then c - 32 else c

abbrev pub to_lower : ℕ → ℕ
to_lower c = if leb b'A' c && leb c b'Z' then c + 32 else c

unfoldable pub uppercase : Bytes → Bytes
uppercase input = map to_upper input

unfoldable pub lower_text : Bytes → Bytes
lower_text value = map to_lower value

abbrev pub core : List Bytes
core =
    codes "KARU_CONCURRENCY"
    ∷ codes "KARU_IO_THREADS"
    ∷ codes "KARU_COALESCE_GAP"
    ∷ codes "KARU_COALESCE_LIMIT"
    ∷ codes "KARU_COALESCE_PARTS"
    ∷ codes "KARU_COALESCE_AMPLIFICATION"
    ∷ codes "KARU_RANGE_FALLBACK_LIMIT"
    ∷ codes "KARU_MAX_ATTEMPTS"
    ∷ codes "KARU_MAX_RETRIES"
    ∷ codes "KARU_REQUEST_TIMEOUT"
    ∷ codes "KARU_CONNECT_TIMEOUT"
    ∷ codes "KARU_LOW_SPEED_TIME"
    ∷ codes "KARU_LOW_SPEED_LIMIT"
    ∷ []

abbrev pub s3 : List Bytes
s3 =
    codes "AWS_NO_SIGN_REQUEST"
    ∷ codes "AWS_ACCESS_KEY_ID"
    ∷ codes "AWS_SECRET_ACCESS_KEY"
    ∷ codes "AWS_SESSION_TOKEN"
    ∷ codes "AWS_REGION"
    ∷ codes "AWS_DEFAULT_REGION"
    ∷ codes "AWS_PROFILE"
    ∷ codes "AWS_DEFAULT_PROFILE"
    ∷ codes "AWS_SHARED_CREDENTIALS_FILE"
    ∷ codes "AWS_CONFIG_FILE"
    ∷ codes "AWS_S3_ENDPOINT"
    ∷ codes "AWS_ENDPOINT_URL_S3"
    ∷ codes "AWS_ENDPOINT_URL"
    ∷ codes "AWS_HTTPS"
    ∷ codes "AWS_VIRTUAL_HOSTING"
    ∷ codes "AWS_REQUEST_PAYER"
    ∷ codes "AWS_ROLE_ARN"
    ∷ codes "AWS_STS_ENDPOINT"
    ∷ codes "AWS_WEB_IDENTITY_TOKEN_FILE"
    ∷ codes "AWS_ROLE_SESSION_NAME"
    ∷ codes "AWS_CONTAINER_CREDENTIALS_RELATIVE_URI"
    ∷ codes "AWS_CONTAINER_CREDENTIALS_FULL_URI"
    ∷ codes "AWS_CONTAINER_AUTHORIZATION_TOKEN"
    ∷ codes "AWS_CONTAINER_AUTHORIZATION_TOKEN_FILE"
    ∷ codes "AWS_EC2_METADATA_DISABLED"
    ∷ codes "AWS_METADATA_SERVICE_TIMEOUT"
    ∷ []

abbrev pub gcs : List Bytes
gcs =
    codes "GCS_NO_SIGN_REQUEST"
    ∷ codes "GCS_HMAC_ACCESS_KEY_ID"
    ∷ codes "GCS_HMAC_SECRET_ACCESS_KEY"
    ∷ codes "GCS_ACCESS_TOKEN"
    ∷ codes "GCS_REFRESH_TOKEN"
    ∷ codes "GCS_CLIENT_ID"
    ∷ codes "GCS_CLIENT_SECRET"
    ∷ codes "GCS_PRIVATE_KEY"
    ∷ codes "GCS_PRIVATE_KEY_FILE"
    ∷ codes "GCS_CLIENT_EMAIL"
    ∷ codes "GCS_SCOPE"
    ∷ codes "GCS_USER_PROJECT"
    ∷ codes "GCS_ENDPOINT"
    ∷ codes "GCS_METADATA_ENDPOINT"
    ∷ codes "GCS_METADATA_DISABLED"
    ∷ codes "GOOGLE_APPLICATION_CREDENTIALS"
    ∷ codes "CLOUDSDK_CONFIG"
    ∷ []

abbrev pub azure : List Bytes
azure =
    codes "AZURE_NO_SIGN_REQUEST"
    ∷ codes "AZURE_STORAGE_CONNECTION_STRING"
    ∷ codes "AZURE_STORAGE_ACCOUNT"
    ∷ codes "AZURE_STORAGE_ACCESS_KEY"
    ∷ codes "AZURE_STORAGE_SAS_TOKEN"
    ∷ codes "AZURE_STORAGE_ACCESS_TOKEN"
    ∷ codes "AZURE_STORAGE_ENDPOINT"
    ∷ codes "AZURE_TENANT_ID"
    ∷ codes "AZURE_CLIENT_ID"
    ∷ codes "AZURE_CLIENT_SECRET"
    ∷ codes "AZURE_FEDERATED_TOKEN_FILE"
    ∷ codes "AZURE_AUTHORITY_HOST"
    ∷ codes "AZURE_STORAGE_SCOPE"
    ∷ codes "AZURE_STORAGE_RESOURCE"
    ∷ codes "AZURE_IMDS_OBJECT_ID"
    ∷ codes "AZURE_IMDS_CLIENT_ID"
    ∷ codes "AZURE_IMDS_MSI_RES_ID"
    ∷ codes "IDENTITY_ENDPOINT"
    ∷ codes "IDENTITY_HEADER"
    ∷ codes "IMDS_ENDPOINT"
    ∷ []

abbrev pub hugging_face : List Bytes
hugging_face =
    codes "HF_ENDPOINT"
    ∷ codes "HF_TOKEN"
    ∷ codes "HF_TOKEN_PATH"
    ∷ codes "HF_HOME"
    ∷ codes "HUGGING_FACE_HUB_TOKEN"
    ∷ []

abbrev pub source : List Bytes
source =
    codes "SOURCE_NO_SIGN_REQUEST"
    ∷ codes "SOURCE_ACCESS_KEY_ID"
    ∷ codes "SOURCE_SECRET_ACCESS_KEY"
    ∷ codes "SOURCE_SESSION_TOKEN"
    ∷ codes "SOURCE_PROFILE"
    ∷ codes "SOURCE_SHARED_CREDENTIALS_FILE"
    ∷ codes "SOURCE_CONFIG_FILE"
    ∷ codes "SOURCE_REGION"
    ∷ codes "SOURCE_ENDPOINT"
    ∷ codes "SOURCE_PROXY_URL"
    ∷ []

abbrev pub http : List Bytes
http =
    codes "KARU_HTTP_HEADERS"
    ∷ codes "KARU_HTTP_VERSION"
    ∷ codes "KARU_HTTP_CA_BUNDLE"
    ∷ codes "CURL_CA_BUNDLE"
    ∷ codes "SSL_CERT_FILE"
    ∷ codes "KARU_HTTP_CA_PATH"
    ∷ codes "KARU_HTTP_PROXY"
    ∷ codes "KARU_HTTP_PROXY_CREDENTIALS"
    ∷ codes "KARU_HTTP_USER_AGENT"
    ∷ []

-- `visit` on a group: the visitor changes a state on each name.
abbrev pub visit {ℓ} : {A : Type ℓ} → (Bytes → A → A) → List Bytes → A → A
visit visitor [] state = state
visit visitor (name ∷ group) state = visit visitor group (visitor name state)

unfoldable pub for_each_environment {ℓ} : {A : Type ℓ} → (Bytes → A → A) → A → A
for_each_environment visitor state = visit visitor http (
    visit visitor source (
      visit visitor hugging_face
        (visit visitor azure (visit visitor gcs (visit visitor s3 (visit visitor core state))))))

-- The name that an option is stored under, of a name in upper case.
unfoldable pub without_alias : Bytes → Bytes
without_alias result =
    if text_eq result (codes "AWS_ENDPOINT_URL") || text_eq result (codes "AWS_ENDPOINT_URL_S3")
    then codes "AWS_S3_ENDPOINT"
    else if text_eq result (codes "AWS_DEFAULT_PROFILE")
    then codes "AWS_PROFILE"
    else if text_eq result (codes "AWS_DEFAULT_REGION")
    then codes "AWS_REGION"
    else if text_eq result (codes "KARU_MAX_RETRIES")
    then codes "KARU_MAX_ATTEMPTS"
    else if text_eq result (codes "HUGGING_FACE_HUB_TOKEN")
    then codes "HF_TOKEN"
    else if text_eq result (codes "CURL_CA_BUNDLE") || text_eq result (codes "SSL_CERT_FILE")
    then codes "KARU_HTTP_CA_BUNDLE"
    else if text_eq result (codes "SOURCE_PROXY_URL")
    then codes "SOURCE_ENDPOINT"
    else result

unfoldable pub canonical_option_name : Bytes → Bytes
unfolding without_alias uppercase
canonical_option_name name = without_alias (uppercase name)

unfoldable pub known_option : Bytes → Bool
unfolding for_each_environment canonical_option_name
known_option canonical =
    for_each_environment
      (λ candidate known. known || text_eq (canonical_option_name candidate) canonical) false

abbrev pub schemes : List (Bytes × Bytes)
schemes =
    (codes "s3://", codes "/vsis3/")
    ∷ (codes "gs://", codes "/vsigs/")
    ∷ (codes "az://", codes "/vsiaz/")
    ∷ (codes "abfs://", codes "/vsiadls/")
    ∷ (codes "hf://", codes "/vsihf/")
    ∷ (codes "source://", codes "/vsisource/")
    ∷ []

-- `convert` with the first scheme that the path starts with.
abbrev pub convert : List (Bytes × Bytes) → Bytes → Bytes
convert [] path = path
convert ((prefix, vsi) ∷ rest) path =
    let later = convert rest path in
    if starts_with path prefix then vsi ++ drop (length prefix) path else later

unfoldable pub canonical_vsi_path : Bytes → Bytes
canonical_vsi_path path = convert schemes path

abbrev pub ends_with_slash : Bytes → Bool
ends_with_slash [] = false
ends_with_slash (c ∷ s) = let later = ends_with_slash s in if is_empty s then c == b'/' else later

unfoldable pub path_prefix_matches : Bytes → Bytes → Bool
path_prefix_matches path prefix =
    if starts_with path prefix
    then (length path == length prefix
        || ends_with_slash prefix
        || starts_with (drop (length prefix) path) (codes "/"))
    else false

-- Equality but for the case of letters.
abbrev pub equals : Bytes → Bytes → Bool
equals value expected =
    length value == length expected && text_eq (map to_lower value) (map to_lower expected)

unfoldable pub option_is_true : Bytes → Bool
option_is_true value =
    equals value (codes "yes")
    || equals value (codes "true")
    || equals value (codes "on")
    || text_eq value (codes "1")
