-- ===== src/ProxyHeaders/Examples.antt =====
-- A client that claims to be somebody.
use praeco_rs.Prelude.{◌≡◌, ◌⊎◌, refl, true, none, some, List, [], ◌∷◌, Bytes, bytes_eq_iff, codes}
use praeco_rs.Net.{v4}
use praeco_rs.Http.Store.{assoc_headers}
use praeco_rs.ProxyHeaders.{
  HeaderConfig, Verified, Codec, Prepared, prepared, prepare_proxy_headers, clean_response_headers,
}
use praeco_rs.ProxyHeaders.Clean.{IsDropped, any-Elem_of, get-clean_response_headers}
use praeco_rs.ProxyHeaders.Spoofing.{IsIdentityName, identity_names, prepare_proxy_headers-identity}

abbrev Headers : Type 0
Headers = List (Bytes × Bytes)

abbrev codec : Codec
codec = record { ip_text = λ ip. codes "10.0.0.7"; url_encode = λ text. text }

abbrev config : HeaderConfig
config = record {
  is_https = true;
  sni_domain = none;
  client_cert_forwarding = some (record {
    header_cert = none;
    header_san = none;
    header_roles = some (codes "x-user-roles");
    header_client_ip = none;
  });
}

abbrev verified : Verified
verified = record {
  addr = some (v4 7);
  pem = none;
  san = none;
  roles = some (codes "viewer" ∷ codes "editor" ∷ []);
}

abbrev spoofed : Headers
spoofed = (codes "x-user-roles", codes "admin") ∷ []

abbrev result : Prepared Headers → Headers
result (prepared headers) = headers
result _ = []

-- The upstream reads the verified roles.
roles_reach_upstream :
    assoc_headers.get
      (codes "x-user-roles")
      (result (prepare_proxy_headers assoc_headers codec config none verified spoofed))
    ≡ some (codes "viewer, editor")
unfolding prepare_proxy_headers
roles_reach_upstream = refl

is_identity : IsIdentityName assoc_headers config (codes "x-user-roles")
is_identity = (
  λ e.
      let equal = (bytes_eq_iff (codes "x-user-roles") (codes "x-forwarded-host")).1 e in
      absurd (cc equal),
  any-Elem_of (codes "x-user-roles") (identity_names assoc_headers config) refl,
)

prepare_proxy_headers-identity_example :
    assoc_headers.get
      (codes "x-user-roles")
      (result (prepare_proxy_headers assoc_headers codec config none verified spoofed))
    ≡ assoc_headers.get
        (codes "x-user-roles")
        (result (prepare_proxy_headers assoc_headers codec config none verified []))
unfolding prepare_proxy_headers
prepare_proxy_headers-identity_example =
    prepare_proxy_headers-identity assoc_headers (codes "x-user-roles") codec config none verified
      spoofed [] _ _ is_identity refl refl

abbrev internal : Headers
internal =
    (codes "connection", codes "x-a, X-B")
    ∷ (codes "x-a", codes "1")
    ∷ (codes "age", codes "2")
    ∷ []

-- `x-a` is listed, `age` is not.
cleaned_headers :
    (assoc_headers.get (codes "x-a") (clean_response_headers assoc_headers internal) ≡ none)
    × (assoc_headers.get (codes "age") (clean_response_headers assoc_headers internal)
        ≡ some (codes "2"))
unfolding clean_response_headers
cleaned_headers = (refl, refl)

get-clean_response_headers_example :
    (IsDropped assoc_headers internal (codes "x-a")
      × (assoc_headers.get (codes "x-a") (clean_response_headers assoc_headers internal) ≡ none))
    ⊎ ((¬ IsDropped assoc_headers internal (codes "x-a"))
        × (assoc_headers.get (codes "x-a") (clean_response_headers assoc_headers internal)
            ≡ assoc_headers.get (codes "x-a") internal))
get-clean_response_headers_example = get-clean_response_headers assoc_headers (codes "x-a") internal
