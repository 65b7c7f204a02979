-- ===== src/Attachments/Downloader.antt =====
-- internal/attachments/downloader.go: Open and the dialer below it. Resolving names, dialing, the HTTP
-- client and the parsing of URLs are not in the source and come as arguments.
pub mod Addresses
pub mod Laws
use dingtalk_oa_attachment_b.Prelude.{
  ℕ, zero, suc, ◌+◌, ◌-◌, ◌/◌, ◌*◌, ◌^◌, Bool, true, false, ◌&&◌, ◌||◌, not, List, [], ◌∷◌, ◌++◌,
  Option, none, some, Text, lit, ◌==◌, text_eq, eqb, leb, ltb, is_empty, any, map, length,
  if◌then◌else◌,
}
use dingtalk_oa_attachment_b.Runes.{trim_space}
use dingtalk_oa_attachment_b.Domain.Errors.{
  Result, ok, err, Fault, is, only, forbidden, not_found, rate_limited, too_large, upstream,
  unavailable, invalid_input, canceled, deadline_exceeded, ◌>>=◌, ◌>>◌, refuse_if, sentinel_eq,
}
use dingtalk_oa_attachment_b.Attachments.Readers.{LimitedReader}
use Addresses.{Ip, validate_public_ip}

-- What the code asks of a *url.URL. `none` for a nil pointer.
pub record Url : Type 0 where
  pub scheme : Text
  pub hostname : Text
  pub has_user : Bool

abbrev pub max_download_redirects : ℕ
max_download_redirects = 5

-- validateDownloadURL
unfoldable pub validate_download_url : Option Url → Result (Unit {0})
validate_download_url none = err (only forbidden)
validate_download_url (some u) =
    if not (u.scheme == lit "https") || is_empty u.hostname || u.has_user
    then err (only forbidden)
    else ok tt

-- validateRedirect, with the number of requests made so far.
unfoldable pub validate_redirect : Option Url → ℕ → Result (Unit {0})
validate_redirect u previous =
    if leb max_download_redirects previous then err (only upstream) else validate_download_url u

-- What the code reads of an *http.Response. A content length that is not known is negative in the
-- source and none here.
pub record Response (S : Type 0) : Type 0 where
  pub status : ℕ
  pub content_encoding : Text
  pub content_type : Text
  pub uncompressed : Bool
  pub content_length : Option ℕ
  pub body : S

pub record Opened (S : Type 0) : Type 0 where
  pub body : LimitedReader S
  pub content_type : Text
  pub content_length : Option ℕ
  pub max_bytes : ℕ

-- The error for a status that is not 200.
unfoldable pub status_fault : ℕ → Fault
status_fault n =
    if eqb n 404
    then only not_found
    else if eqb n 401 || eqb n 403
    then only forbidden
    else if eqb n 429
    then only rate_limited
    else if eqb n 502 || eqb n 503 || eqb n 504
    then only unavailable
    else only upstream

-- The error for a request that failed.
unfoldable pub request_fault : Fault → Fault
request_fault f =
    if is f canceled || is f deadline_exceeded
    then only unavailable
    else if is f forbidden
    then f
    else only upstream

-- strings.EqualFold against an ASCII text
abbrev lower : ℕ → ℕ
lower c = if leb b'A' c && leb c b'Z' then c + 32 else c

unfoldable pub is_encoded : Text → Bool → Bool
is_encoded encoding uncompressed =
    uncompressed || (not (is_empty encoding) && not (map lower encoding == lit "identity"))

abbrev exceeds : Option ℕ → ℕ → Bool
exceeds none limit = false
exceeds (some n) limit = ltb limit n

module _ {S : Type 0} (max_bytes : ℕ) where
  -- Open, after the client's answer. The body is closed on every refusal; the second part says so.
  unfoldable pub open_response : Response S → Result (Opened S) × Bool
  unfolding status_fault is_encoded
  open_response r =
      if not (eqb r.status 200)
      then (err (status_fault r.status), true)
      else if is_encoded (trim_space r.content_encoding) r.uncompressed
      then (err (only upstream), true)
      else if exceeds r.content_length max_bytes
      then (err (only too_large), true)
      else (
        ok (record {
          body = record { body = r.body; remaining = max_bytes; terminal_error = none };
          content_type = r.content_type;
          content_length = r.content_length;
          max_bytes = max_bytes;
        }),
        false,
      )

  -- Downloader.Open. `fetch` is the client's Do on the request for the URL, or none where
  -- NewRequestWithContext makes no request of the URL.
  unfoldable pub open_download :
      (Url → Option (Result (Response S))) → Option Url → Result (Opened S) × Bool
  unfolding open_response request_fault validate_download_url
  open_download fetch none = (err (only forbidden), false)
  open_download fetch (some u) = elim (validate_download_url (some u)) [
    | err f ↦ (err f, false)
    | ok _ ↦ elim (fetch u) [
      | none ↦ (err (only invalid_input), false)
      | some (err f) ↦ (err (request_fault f), false)
      | some (ok r) ↦ open_response r
    ]
  ]

-- net.SplitHostPort, net.ParseIP and the resolver, as the dialer uses them.
pub record Network : Type 1 where
  pub Conn : Type 0
  pub split_host_port : Text → Result (Text × Text)
  pub is_port : Text → Bool
  pub parse_ip : Text → Option Ip
  pub resolve : Text → Result (List Ip)
  pub dial : Text → Ip → Text → Result Conn

module _ (n : Network) where
  abbrev addresses_of : Text → Option Ip → Result (List Ip)
  addresses_of host (some ip) = ok (ip ∷ [])
  addresses_of host none = elim (n.resolve host) [
    | ok ips ↦ ok ips
    | err f ↦ err (only unavailable)
  ]

  -- The loop that refuses a host with any address that is not public.
  unfoldable pub validate_all : List Ip → Result (Unit {0})
  validate_all [] = ok tt
  validate_all (ip ∷ ips) = let rest = validate_all ips in validate_public_ip ip >> rest

  -- The loop that dials the addresses in order, with the addresses that were dialed.
  unfoldable pub dial_all : Text → Text → List Ip → Result n.Conn × List Ip
  dial_all network port [] = (err (only unavailable), [])
  dial_all network port (ip ∷ ips) =
      let rest = dial_all network port ips in
      elim (n.dial network ip port) [ ok c ↦ (ok c, ip ∷ []) | err f ↦ (rest.0, ip ∷ rest.1) ]

  abbrev is_tcp : Text → Bool
  is_tcp network = network == lit "tcp" || network == lit "tcp4" || network == lit "tcp6"

  dial_checked : Text → Text → List Ip → Result n.Conn × List Ip
  unfolding validate_all dial_all
  dial_checked network port ips =
      if is_empty ips
      then (err (only unavailable), [])
      else elim (validate_all ips) [ err f ↦ (err f, []) | ok _ ↦ dial_all network port ips ]

  dial_addresses : Text → Text → Result (List Ip) → Result n.Conn × List Ip
  unfolding dial_checked
  dial_addresses network port (err f) = (err f, [])
  dial_addresses network port (ok ips) = dial_checked network port ips

  dial_host : Text → Text → Text → Result n.Conn × List Ip
  unfolding dial_addresses
  dial_host network host port =
      if not (n.is_port port)
      then (err (only forbidden), [])
      else dial_addresses network port (addresses_of host (n.parse_ip host))

  -- secureDialer.DialContext, with the addresses that it dialed.
  unfoldable pub dial_context : Text → Text → Result n.Conn × List Ip
  unfolding dial_host
  dial_context network address =
      if not (is_tcp network)
      then (err (only forbidden), [])
      else elim (n.split_host_port address) [
        | err f ↦ (err (only forbidden), [])
        | ok (host, port) ↦ dial_host network host port
      ]
