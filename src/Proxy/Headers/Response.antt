-- ===== src/Proxy/Headers/Response.antt =====
-- What `filter_response_headers` of proxy/header_policy.py returns to the client, and what
-- `_with_stream_headers` of proxy/relay.py asks of the upstream.
use nf_safety_hub.Prelude.{
  Bool, false, not, ◌&&◌, Option, none, some, [], ◌∷◌, if◌then◌else◌, filter, All, ◌≡◌, refl, ap,
  subst, ◌∙◌, arith, Bool-cases, inl, inr,
}
use nf_safety_hub.Prelude.Text.{Text, str, ◌==◌, eq_iff, is_one_of, lower}
use nf_safety_hub.Prelude.Dict.{Dict, assign, lookup, lookup-assign, All-assign, All-filter_entries}
use nf_safety_hub.Proxy.Headers.{
  Headers, response_header_blocklist, keep_response_headers, filter_response_headers,
  override_header_case_insensitive, with_stream_headers,
}

abbrev blocked : Text → Bool
blocked name = is_one_of (lower name) response_header_blocklist

-- The value of the last header of this name that is not on the blocklist.
abbrev pub last_response : Text → Headers → Option Text → Option Text
last_response j [] found = found
last_response j ((name, value) ∷ rest) found = last_response j rest (
    if not (is_one_of (lower name) response_header_blocklist) && name == j
    then some value
    else found)

keep-unblocked :
    (headers : Headers) (acc : Dict Text)
    → All (λ h. blocked h.0 ≡ false) acc
    → All (λ h. blocked h.0 ≡ false) (keep_response_headers headers acc)
unfolding keep_response_headers
keep-unblocked [] acc h = h
keep-unblocked ((name, value) ∷ rest) acc h = elim (Bool-cases (blocked name)) [
  | inl e ↦ rw e (keep-unblocked rest acc h)
  | inr e ↦ rw e (
      keep-unblocked rest (assign name value acc)
        (All-assign (λ x. blocked x.0 ≡ false) name value acc e h))
]

lookup-keep :
    (j : Text) (headers : Headers) (acc : Dict Text)
    → lookup j (keep_response_headers headers acc) ≡ last_response j headers (lookup j acc)
unfolding keep_response_headers
lookup-keep j [] acc = refl
lookup-keep j ((name, value) ∷ rest) acc =
    lookup-keep j rest (if not (blocked name) then assign name value acc else acc)
    ∙ ap (last_response j rest) (ground (arith, lookup-assign name j value acc))

-- No header of the blocklist, hop-by-hop or a length or encoding of the body, reaches the client,
-- and under every name the client gets the value of the last header that is not on the list.
pub filter_response_headers_lem :
    (headers : Headers)
    → All
        (λ h. is_one_of (lower h.0) response_header_blocklist ≡ false)
        (filter_response_headers headers)
      × ((j : Text) → lookup j (filter_response_headers headers) ≡ last_response j headers none)
unfolding filter_response_headers lookup
filter_response_headers_lem headers = (keep-unblocked headers [] tt, λ j. lookup-keep j headers [])

-- Every header of this name, in any case, has this value.
abbrev pub Only : Text → Text → Dict Text → Type 0
Only name value d = All (λ h. lower h.0 ≡ name → h.1 ≡ value) d

override-Only :
    (name value : Text) (d : Dict Text)
    → Only (lower name) value (override_header_case_insensitive d name value)
unfolding override_header_case_insensitive
override-Only name value d =
    All-assign (λ h. lower h.0 ≡ lower name → h.1 ≡ value) name value
      (filter (λ h. not (lower h.0 == lower name)) d) (λ e. refl) (removed d)
  where
    removed :
        (d : Dict Text) → Only (lower name) value (filter (λ h. not (lower h.0 == lower name)) d)
    removed [] = tt
    removed ((k, v) ∷ d) = elim (Bool-cases (lower k == lower name)) [
      | inl e ↦ rw e (removed d)
      | inr n ↦ rw n (
        λ (same : lower k ≡ lower name). absurd (ground (arith, eq_iff (lower k) (lower name))),
        removed d,
      )
    ]

override-keeps :
    (other value0 name value : Text) (d : Dict Text)
    → (lower name == other) ≡ false
    → Only other value0 d
    → Only other value0 (override_header_case_insensitive d name value)
unfolding override_header_case_insensitive
override-keeps other value0 name value d ne h =
    All-assign (λ h. lower h.0 ≡ other → h.1 ≡ value0) name value
      (filter (λ h. not (lower h.0 == lower name)) d)
      (λ e. absurd (ground (arith, eq_iff (lower name) other)))
      (All-filter_entries (λ h. lower h.0 ≡ other → h.1 ≡ value0)
        (λ h. not (lower h.0 == lower name)) d h)

abbrev accept : Text
accept = str "accept"

abbrev accept_encoding : Text
accept_encoding = str "accept-encoding"

abbrev cache_control : Text
cache_control = str "cache-control"

lower_names :
    (lower (str "Accept") ≡ accept)
    × (lower (str "Accept-Encoding") ≡ accept_encoding)
    × (lower (str "Cache-Control") ≡ cache_control)
unfolding lower str
lower_names = (refl, refl, refl)

names_differ :
    ((accept_encoding == accept) ≡ false)
    × ((cache_control == accept) ≡ false)
    × ((cache_control == accept_encoding) ≡ false)
unfolding str ◌==◌
names_differ = (refl, refl, refl)

-- Among the headers of a stream's request, each one named accept, accept-encoding or cache-control, in
-- any case, asks for an event stream, no compression and no caching, whatever the client sent.
pub with_stream_headers_lem :
    (headers : Dict Text)
    → Only accept (str "text/event-stream") (with_stream_headers headers)
      × Only accept_encoding (str "identity") (with_stream_headers headers)
      × Only cache_control (str "no-cache") (with_stream_headers headers)
unfolding with_stream_headers
with_stream_headers_lem headers =
    let first = override_header_case_insensitive headers (str "Accept") (str "text/event-stream") in
    let second = override_header_case_insensitive first (str "Accept-Encoding") (str "identity") in
    let (a, e, c) = lower_names in
    let (ea, ca, ce) = names_differ in
    (
      override-keeps accept (str "text/event-stream") (str "Cache-Control") (str "no-cache") second
          (rw c ca)
          (override-keeps accept (str "text/event-stream") (str "Accept-Encoding") (str "identity")
            first (rw e ea)
            (subst (λ n. Only n (str "text/event-stream") first) a
              (override-Only (str "Accept") (str "text/event-stream") headers))),
      override-keeps accept_encoding (str "identity") (str "Cache-Control") (str "no-cache") second
          (rw c ce)
          (subst (λ n. Only n (str "identity") second) e
            (override-Only (str "Accept-Encoding") (str "identity") first)),
      subst (λ n. Only n (str "no-cache") (with_stream_headers headers)) c
          (override-Only (str "Cache-Control") (str "no-cache") second),
    )
