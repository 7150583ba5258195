-- ===== src/Proxy/Headers.antt =====
-- proxy/header_policy.py and the header functions of proxy/relay.py.
-- `headers.items()` of a request is a list of names and values; the result is a Python dict. Header
-- names are Latin-1, on which `lower` of Prelude/Text.antt is `str.lower`.
pub mod Upstream
pub mod Response
use nf_safety_hub.Prelude.{
  Bool, true, false, not, ◌&&◌, ◌||◌, Option, none, some, List, [], ◌∷◌, ◌++◌, if◌then◌else◌,
  is_some, is_empty, filter, any,
}
use nf_safety_hub.Prelude.Text.{Text, str, ◌==◌, is_one_of, starts_with, lower}
use nf_safety_hub.Prelude.Dict.{Dict, assign}

abbrev pub Headers : Type 0
Headers = List (Text × Text)

unfoldable pub hop_by_hop_headers : List Text
hop_by_hop_headers =
    str "connection"
    ∷ str "keep-alive"
    ∷ str "proxy-authenticate"
    ∷ str "proxy-authorization"
    ∷ str "te"
    ∷ str "trailer"
    ∷ str "transfer-encoding"
    ∷ str "upgrade"
    ∷ []

unfoldable pub blocked_headers : List Text
blocked_headers =
    str "host"
    ∷ str "cookie"
    ∷ str "content-length"
    ∷ str "x-forwarded-for"
    ∷ str "x-forwarded-host"
    ∷ str "x-forwarded-proto"
    ∷ str "x-real-ip"
    ∷ []

unfoldable pub internal_header_prefixes : List Text
internal_header_prefixes = str "x-safetyhub-" ∷ str "x-admin-" ∷ str "x-internal-" ∷ []

-- `HeaderPolicy._should_strip`; `blocked` is the policy's own set, in lower case
unfoldable pub should_strip : List Text → Text → Bool
unfolding hop_by_hop_headers blocked_headers internal_header_prefixes
should_strip blocked normalized_name =
    is_one_of normalized_name hop_by_hop_headers
    || (is_one_of normalized_name blocked_headers
        || (is_one_of normalized_name blocked
            || any (starts_with normalized_name) internal_header_prefixes))

-- the two `continue`s of the loop
unfoldable pub skips : List Text → Option Text → Text → Bool
skips blocked upstream_api_key name =
    should_strip blocked (lower name)
    || (is_some upstream_api_key && lower name == str "authorization")

unfoldable pub copy_headers : List Text → Option Text → Headers → Dict Text → Dict Text
copy_headers blocked key [] acc = acc
copy_headers blocked key ((name, value) ∷ rest) acc =
    copy_headers blocked key rest (if skips blocked key name then acc else assign name value acc)

unfoldable pub set_authorization : Option Text → Dict Text → Dict Text
set_authorization none headers = headers
set_authorization (some key) headers = assign (str "Authorization") (str "Bearer " ++ key) headers

unfoldable pub set_request_id : Option Text → Dict Text → Dict Text
set_request_id none headers = headers
set_request_id (some id) headers =
    if is_empty id then headers else assign (str "X-Request-ID") id headers

-- `HeaderPolicy(blocked).build_upstream_headers(headers, request_id, upstream_api_key)`
unfoldable pub build_with_policy : List Text → Headers → Option Text → Option Text → Dict Text
unfolding set_authorization set_request_id
build_with_policy blocked headers request_id upstream_api_key =
    set_request_id request_id
      (set_authorization upstream_api_key (copy_headers blocked upstream_api_key headers []))

-- the function of the module, with the default policy
unfoldable pub build_upstream_headers : Headers → Option Text → Option Text → Dict Text
unfolding build_with_policy
build_upstream_headers = build_with_policy []

unfoldable pub response_header_blocklist : List Text
response_header_blocklist =
    str "connection"
    ∷ str "keep-alive"
    ∷ str "proxy-authenticate"
    ∷ str "proxy-authorization"
    ∷ str "te"
    ∷ str "trailer"
    ∷ str "transfer-encoding"
    ∷ str "upgrade"
    ∷ str "content-length"
    ∷ str "content-encoding"
    ∷ []

unfoldable pub keep_response_headers : Headers → Dict Text → Dict Text
keep_response_headers [] acc = acc
keep_response_headers ((name, value) ∷ rest) acc =
    keep_response_headers rest (
      if not (is_one_of (lower name) response_header_blocklist) then assign name value acc else acc)

unfoldable pub filter_response_headers : Headers → Dict Text
unfolding keep_response_headers
filter_response_headers headers = keep_response_headers headers []

-- `_override_header_case_insensitive`
unfoldable pub override_header_case_insensitive : Dict Text → Text → Text → Dict Text
override_header_case_insensitive headers name value =
    assign name value (filter (λ h. not (lower h.0 == lower name)) headers)

-- `_with_stream_headers`
unfoldable pub with_stream_headers : Dict Text → Dict Text
unfolding override_header_case_insensitive
with_stream_headers headers =
    override_header_case_insensitive
      (override_header_case_insensitive
        (override_header_case_insensitive headers (str "Accept") (str "text/event-stream"))
        (str "Accept-Encoding") (str "identity"))
      (str "Cache-Control") (str "no-cache")
