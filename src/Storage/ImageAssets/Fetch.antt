-- ===== src/Storage/ImageAssets/Fetch.antt =====
-- storage/image_assets.py: which URLs a download may fetch. The checks are numbered, since a name may
-- resolve to other addresses at each. The client resolves it once more for its request, which is
-- outside the model: nothing here is about the address that a request reaches.
use nf_safety_hub.Prelude.{
  ℕ, zero, suc, ◌≤◌, Bool, true, false, not, ◌&&◌, Option, none, some, List, [], ◌∷◌, if◌then◌else◌,
  is_empty, length, ltb, leb, all, any, eqb, All, ◌≡◌, ◌≢◌, refl, ap, arith, Bool-cases, ◌⊎◌, inl,
  inr,
}
use nf_safety_hub.Prelude.Text.{
  Text, str, starts_with, ◌==◌, eq_iff, lower, strip, partition, is_one_of,
}
use nf_safety_hub.Storage.ImageAssets.{Ip, Web, Response, is_public_ip, detect_mime_type}

unfoldable pub is_redirect : ℕ → Bool
is_redirect status = any (eqb status) (301 ∷ 302 ∷ 303 ∷ 307 ∷ 308 ∷ [])

module _ (w : Web) where
  unfoldable pub is_public_address : Text → Bool
  is_public_address address = elim (w.ip_address address) [
    | none ↦ false
    | some ip ↦ is_public_ip ip
  ]

  -- `_validate_public_host`, whether it passes
  unfoldable pub is_public_host : ℕ → Text → Bool
  unfolding is_public_address
  is_public_host check hostname = elim (w.ip_address hostname) [
    | some ip ↦ is_public_ip ip
    | none ↦ elim (w.getaddrinfo check hostname) [
      | none ↦ false
      | some addresses ↦ all is_public_address addresses
    ]
  ]

  -- `_validate_public_image_url`, whether it passes
  unfoldable pub is_public_url : ℕ → Text → Bool
  unfolding is_public_host
  is_public_url check url =
      let parsed = w.urlparse url in
      is_one_of parsed.scheme (str "http" ∷ str "https" ∷ [])
      && (not (is_empty parsed.hostname) && is_public_host check parsed.hostname)

  -- what was fetched, and the response
  abbrev pub Fetched : Type 0
  Fetched = List Text × Option Response

  abbrev pub prepend : Text → Fetched → Fetched
  prepend url (urls, r) = (url ∷ urls, r)

  abbrev pub on_response : Text → (Text → Fetched) → Option Response → Fetched
  on_response url again none = (url ∷ [], none)
  on_response url again (some r) =
      if is_redirect r.status_code
      then (if is_empty r.location
          then (url ∷ [], none)
          else prepend url (again (w.join url r.location)))
      else (url ∷ [], some r)

  -- `_get_with_safe_redirects`, with the number of its next check and the rounds of its loop that
  -- are left
  unfoldable pub get_with_safe_redirects : ℕ → ℕ → Text → Fetched
  unfolding is_public_url is_redirect
  get_with_safe_redirects check zero url = ([], none)
  get_with_safe_redirects check (suc rounds) url =
      if is_public_url check url
      then on_response url (get_with_safe_redirects (suc check) rounds) (w.get check url)
      else ([], none)

  abbrev pub checked_content : Response → Option (Text × Text)
  checked_content r =
      let content_type = lower (strip (partition 59 r.content_type).before) in
      let mime_type = if is_empty content_type then detect_mime_type r.content else content_type in
      if leb 400 r.status_code
      then none
      else if ltb w.max_size_bytes (length r.content)
      then none
      else if starts_with mime_type (str "image/")
      then some (r.content, mime_type)
      else none

  abbrev pub checked : Fetched → List Text × Option (Text × Text)
  checked (urls, none) = (urls, none)
  checked (urls, some r) = (urls, checked_content r)

  unfoldable pub download_with : ℕ → Text → List Text × Option (Text × Text)
  download_with rounds url =
      if is_public_url 0 url then checked (get_with_safe_redirects 1 rounds url) else ([], none)

  -- `_download_url`: what it fetches, with the content and its type
  unfoldable pub download_url : Text → List Text × Option (Text × Text)
  download_url = download_with 5

  -- none of the addresses that a gateway must not call
  pub record IsPublicIp (ip : Ip) : Type 0 where
    pub no_private : ip.is_private ≡ false
    pub no_loopback : ip.is_loopback ≡ false
    pub no_link_local : ip.is_link_local ≡ false
    pub no_multicast : ip.is_multicast ≡ false
    pub no_reserved : ip.is_reserved ≡ false
    pub no_unspecified : ip.is_unspecified ≡ false

  abbrev pub IsPublicAddress : Text → Type 0
  IsPublicAddress address = (ip : Ip) × ((w.ip_address address ≡ some ip) × IsPublicIp ip)

  -- An address that is public, or a name that resolved at this check to public addresses only.
  abbrev pub IsPublicHost : ℕ → Text → Type 0
  IsPublicHost check host =
      IsPublicAddress host
      ⊎ ((w.ip_address host ≡ none)
          × ((addresses : List Text) × ((w.getaddrinfo check host ≡ some addresses)
                × All IsPublicAddress addresses)))

  pub record IsPublicUrl (check : ℕ) (url : Text) : Type 0 where
    pub scheme : ((w.urlparse url).scheme ≡ str "http") ⊎ ((w.urlparse url).scheme ≡ str "https")
    pub named : (w.urlparse url).hostname ≢ []
    pub host : IsPublicHost check (w.urlparse url).hostname

  -- Each of the URLs is a public one at its check, the checks being numbered on from `check`.
  abbrev pub AllPublic : ℕ → List Text → Type 0
  AllPublic check [] = Unit
  AllPublic check (url ∷ urls) = IsPublicUrl check url × AllPublic (suc check) urls

  is_public_ip-IsPublicIp : (ip : Ip) → is_public_ip ip ≡ true → IsPublicIp ip
  unfolding is_public_ip
  is_public_ip-IsPublicIp ip h = record {
    no_private = ground (arith, h);
    no_loopback = ground (arith, h);
    no_link_local = ground (arith, h);
    no_multicast = ground (arith, h);
    no_reserved = ground (arith, h);
    no_unspecified = ground (arith, h);
  }

  is_public_address-Public :
      (address : Text) → is_public_address address ≡ true → IsPublicAddress address
  unfolding is_public_address
  is_public_address-Public address h = go (w.ip_address address) refl
    where
      go : (o : Option Ip) → w.ip_address address ≡ o → IsPublicAddress address
      go none e = absurd (ground (arith, e, h))
      go (some ip) e =
          let q : is_public_ip ip ≡ true = ground (arith, e, h) in
          (ip, (e, is_public_ip-IsPublicIp ip q))

  all-Public :
      (addresses : List Text)
      → all is_public_address addresses ≡ true
      → All IsPublicAddress addresses
  all-Public [] h = tt
  all-Public (a ∷ rest) h =
      (is_public_address-Public a (ground (arith, h)), all-Public rest (ground (arith, h)))

  is_public_host-Public :
      (check : ℕ) (host : Text) → is_public_host check host ≡ true → IsPublicHost check host
  unfolding is_public_host
  is_public_host-Public check host h = go (w.ip_address host) (w.getaddrinfo check host) refl refl
    where
      go :
          (o : Option Ip) (found : Option (List Text))
          → w.ip_address host ≡ o
          → w.getaddrinfo check host ≡ found
          → IsPublicHost check host
      go (some ip) addresses e f =
          let q : is_public_ip ip ≡ true = ground (arith, e, h) in
          inl (ip, (e, is_public_ip-IsPublicIp ip q))
      go none none e f = absurd (ground (arith, e, f, h))
      go none (some found) e f =
          let q : all is_public_address found ≡ true = ground (arith, e, f, h) in
          inr (e, (found, (f, all-Public found q)))

  is_public_url-Public :
      (check : ℕ) (url : Text) → is_public_url check url ≡ true → IsPublicUrl check url
  unfolding is_public_url is_one_of
  is_public_url-Public check url h = record {
    scheme = elim (Bool-cases ((w.urlparse url).scheme == str "http")) [
      | inl e ↦ inl ((eq_iff (w.urlparse url).scheme (str "http")).0 e)
      | inr e ↦ inr ((eq_iff (w.urlparse url).scheme (str "https")).0 (ground (arith, e, h)))
    ];
    named = λ e.
        let q : is_empty (w.urlparse url).hostname ≡ false = ground (arith, h) in
        cc (q, ap is_empty e);
    host = is_public_host-Public check (w.urlparse url).hostname (ground (arith, h));
  }

  on_response-AllPublic :
      (check : ℕ) (url : Text) (again : Text → Fetched) (n : ℕ) (o : Option Response)
      → is_public_url check url ≡ true
      → ((next : Text) → AllPublic (suc check) (again next).0 × (length (again next).0 ≤ n))
      → AllPublic check (on_response url again o).0 × (length (on_response url again o).0 ≤ suc n)
  on_response-AllPublic check url again n none p h =
      ((is_public_url-Public check url p, tt), omega arith)
  on_response-AllPublic check url again n (some r) p h =
      let public = is_public_url-Public check url p in
      elim (Bool-cases (is_redirect r.status_code)) [
        | inr e ↦ rw e ((public, tt), omega arith)
        | inl e ↦ elim (Bool-cases (is_empty r.location)) [
          | inl f ↦ rw (e, f) ((public, tt), omega arith)
          | inr f ↦
              rw (e, f)
                (
                  (public, (h (w.join url r.location)).0),
                  omega (arith, (h (w.join url r.location)).1),
                )
        ]
      ]

  get-AllPublic :
      (check rounds : ℕ) (url : Text)
      → AllPublic check (get_with_safe_redirects check rounds url).0
        × (length (get_with_safe_redirects check rounds url).0 ≤ rounds)
  unfolding get_with_safe_redirects
  get-AllPublic check zero url = (tt, omega arith)
  get-AllPublic check (suc rounds) url = elim (Bool-cases (is_public_url check url)) [
    | inl e ↦ rw e (
        on_response-AllPublic check url (get_with_safe_redirects (suc check) rounds) rounds
          (w.get check url) e (get-AllPublic (suc check) rounds))
    | inr e ↦ rw e (tt, omega arith)
  ]

  checked-Keeps : (P : List Text → Type 0) (f : Fetched) → P f.0 → P (checked f).0
  checked-Keeps P (urls, none) h = h
  checked-Keeps P (urls, some r) h = h

  download_with-AllPublic :
      (rounds : ℕ) (url : Text)
      → AllPublic 1 (download_with rounds url).0 × (length (download_with rounds url).0 ≤ rounds)
  unfolding download_with
  download_with-AllPublic rounds url = elim (Bool-cases (is_public_url 0 url)) [
    | inl e ↦ rw e (
        checked-Keeps (λ urls. AllPublic 1 urls × (length urls ≤ rounds))
          (get_with_safe_redirects 1 rounds url) (get-AllPublic 1 rounds url))
    | inr e ↦ rw e (tt, omega arith)
  ]

  -- Whatever URL a response names and wherever its server redirects, a download makes at most five
  -- requests, and each is for an http or https URL whose host passed a check of its own just before:
  -- it is an address, or a name that resolved at this check to addresses only, that is none of
  -- private, loopback, link-local, multicast, reserved and unspecified.
  pub download_url-AllPublic :
      (url : Text) → AllPublic 1 (download_url url).0 × (length (download_url url).0 ≤ 5)
  unfolding download_url
  download_url-AllPublic url = download_with-AllPublic 5 url
