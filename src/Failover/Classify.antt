-- ===== src/Failover/Classify.antt =====
-- When a failed request is the upstream's fault.
use praeco_rs.Prelude.{
  Bool, true, false, ◌≡◌, refl, ◌≢◌, ◌↔◌, ◌⊎◌, inl, inr, if◌then◌else◌, Option, none, some, List,
  [], ◌∷◌, Bytes, All, arith, Bool-cases, ◌||◌, codes,
}
use praeco_rs.PathSanitizer.{contains}
use praeco_rs.Failover.Errors.{
  SrvError, infallible, hyper_error, hyper_util_error, too_large, decompression_limit,
  client_aborted, other, IoKind, broken_pipe, connection_reset, connection_aborted, unexpected_eof,
  io_other, ErrorLink, ProxyError, ProxyErrorKind, kind_payload_too_large, kind_decompression_limit,
  kind_client_aborted, kind_upstream_failure, kind_of_srv, kind_of_io, kind_of_text, kind_of_link,
  first_of, or_later, classify_chain, classify_proxy_error,
}

-- A typed error that speaks of the client's own body.
abbrev pub IsOfClient : Option SrvError → Type 0
IsOfClient (some (too_large current limit)) = Unit
IsOfClient (some (decompression_limit limit)) = Unit
IsOfClient (some (client_aborted reason)) = Unit
IsOfClient _ = ⊥

-- An error that says nothing of the client: no typed one, none of the user, and without the four
-- phrases in its text.
abbrev pub IsUpstreamLink : ErrorLink → Type 0
IsUpstreamLink link =
    (¬ IsOfClient link.srv)
    × (link.by_user ≡ false)
    × (contains link.text (codes "Payload Limit Exceeded") ≡ false)
    × (contains link.text (codes "Decompressed payload exceeds maximum allowed size") ≡ false)
    × (contains link.text (codes "sent by user") ≡ false)
    × (contains link.text (codes "user body write aborted") ≡ false)

kind_of_srv-none_iff : (srv : Option SrvError) → (kind_of_srv srv ≡ none) ↔ (¬ IsOfClient srv)
unfolding kind_of_srv
kind_of_srv-none_iff none = (λ e. λ x. x, λ n. refl)
kind_of_srv-none_iff (some (too_large current limit)) =
    (λ e. absurd (ground arith), λ n. absurd (n tt))
kind_of_srv-none_iff (some (decompression_limit limit)) =
    (λ e. absurd (ground arith), λ n. absurd (n tt))
kind_of_srv-none_iff (some (client_aborted reason)) =
    (λ e. absurd (ground arith), λ n. absurd (n tt))
kind_of_srv-none_iff (some (infallible text)) = (λ e. λ x. x, λ n. refl)
kind_of_srv-none_iff (some (hyper_error text)) = (λ e. λ x. x, λ n. refl)
kind_of_srv-none_iff (some (hyper_util_error text)) = (λ e. λ x. x, λ n. refl)
kind_of_srv-none_iff (some (other text)) = (λ e. λ x. x, λ n. refl)

phrases_none :
    (a b c d : Bool) (kind : ProxyErrorKind)
    → ((if a
          then some kind_payload_too_large
          else if b
          then some kind_decompression_limit
          else if c || d
          then some kind
          else none)
        ≡ none)
      ↔ ((a ≡ false) × (b ≡ false) × (c ≡ false) × (d ≡ false))
phrases_none a b c d kind = ground arith

kind_of_text-none_iff :
    (text : Bytes)
    → (kind_of_text text ≡ none) ↔ (
        (contains text (codes "Payload Limit Exceeded") ≡ false)
        × (contains text (codes "Decompressed payload exceeds maximum allowed size") ≡ false)
        × (contains text (codes "sent by user") ≡ false)
        × (contains text (codes "user body write aborted") ≡ false))
unfolding kind_of_text
kind_of_text-none_iff text = phrases_none _ _ _ _ _

abbrev ClientsFault : Option ProxyErrorKind → Type 0
ClientsFault none = Unit
ClientsFault (some kind) = kind ≢ kind_upstream_failure

srv_fault : (srv : Option SrvError) → ClientsFault (kind_of_srv srv)
unfolding kind_of_srv
srv_fault none = tt
srv_fault (some (too_large current limit)) = λ e. cc
srv_fault (some (decompression_limit limit)) = λ e. cc
srv_fault (some (client_aborted reason)) = λ e. cc
srv_fault (some (infallible text)) = tt
srv_fault (some (hyper_error text)) = tt
srv_fault (some (hyper_util_error text)) = tt
srv_fault (some (other text)) = tt

io_fault : (io : Option (IoKind × Bytes)) → ClientsFault (kind_of_io io)
unfolding kind_of_io
io_fault none = tt
io_fault (some (broken_pipe, text)) = λ e. cc
io_fault (some (connection_reset, text)) = λ e. cc
io_fault (some (connection_aborted, text)) = λ e. cc
io_fault (some (unexpected_eof, text)) = λ e. cc
io_fault (some (io_other, text)) = tt

branch_fault :
    (b : Bool) (x y : Option ProxyErrorKind)
    → ClientsFault x
    → ClientsFault y
    → ClientsFault (if b then x else y)
branch_fault true x y hx hy = hx
branch_fault false x y hx hy = hy

phrases_fault :
    (a b c : Bool) (text : Bytes)
    → ClientsFault (
        if a
        then some kind_payload_too_large
        else if b
        then some kind_decompression_limit
        else if c
        then some (kind_client_aborted text)
        else none)
phrases_fault true b c text = λ e. cc
phrases_fault false true c text = λ e. cc
phrases_fault false false true text = λ e. cc
phrases_fault false false false text = tt

text_fault : (text : Bytes) → ClientsFault (kind_of_text text)
unfolding kind_of_text
text_fault text = phrases_fault _ _ _ text

first_fault :
    (x y : Option ProxyErrorKind) → ClientsFault x → ClientsFault y → ClientsFault (first_of x y)
first_fault none y hx hy = hy
first_fault (some kind) y hx hy = hx

-- What a link says is never that the upstream failed.
link_fault : (user : Bool) (link : ErrorLink) → ClientsFault (kind_of_link user link)
unfolding kind_of_link
link_fault user link =
    first_fault _ _ (srv_fault link.srv)
      (first_fault _ _ (branch_fault user _ none (io_fault link.io) tt) (text_fault link.text))

or_later_fault :
    (k : Option ProxyErrorKind) (later : ProxyErrorKind)
    → ClientsFault k
    → later ≢ kind_upstream_failure
    → or_later k later ≢ kind_upstream_failure
or_later_fault (some kind) later fault h = fault
or_later_fault none later fault h = h

user_chain : (chain : List ErrorLink) → classify_chain true chain ≢ kind_upstream_failure
unfolding classify_chain
user_chain [] = λ e. cc
user_chain (link ∷ links) = or_later_fault _ _ (link_fault true link) (user_chain links)

-- Neither a typed error nor a phrase of the text speaks of the client.
or_later_silent :
    (s t : Option ProxyErrorKind) (later : ProxyErrorKind)
    → ClientsFault s
    → ClientsFault t
    → (or_later (first_of s t) later ≡ kind_upstream_failure)
      ↔ ((s ≡ none) × (t ≡ none) × (later ≡ kind_upstream_failure))
or_later_silent (some k) t later hs ht = (λ e. absurd (hs e), λ h. absurd (ground arith))
or_later_silent none (some k) later hs ht = (λ e. absurd (ht e), λ h. absurd (ground arith))
or_later_silent none none later hs ht = (λ e. (refl, refl, e), λ h. h.2)

classify_chain-upstream_iff :
    (chain : List ErrorLink)
    → (classify_chain false chain ≡ kind_upstream_failure) ↔ All IsUpstreamLink chain
unfolding classify_chain kind_of_link
classify_chain-upstream_iff [] = (λ e. tt, λ h. refl)
classify_chain-upstream_iff (link ∷ links) = elim (Bool-cases link.by_user) [
  | inl user ↦ rw user (
    λ e. absurd (or_later_fault _ _ (link_fault true link) (user_chain links) e),
    λ h. absurd (ground arith),
  )
  | inr free ↦
      let silent =
        or_later_silent (kind_of_srv link.srv) (kind_of_text link.text) (classify_chain false links)
          (srv_fault link.srv) (text_fault link.text) in
      let rest = classify_chain-upstream_iff links in
      rw free (
        λ e.
            let (limit, decompression, user, body) =
              (kind_of_text-none_iff link.text).0 (silent.0 e).1 in
            (
              (
                (kind_of_srv-none_iff link.srv).0 (silent.0 e).0,
                refl,
                limit,
                decompression,
                user,
                body,
              ),
              rest.0 (silent.0 e).2,
            ),
        λ h. silent.1 (
          (kind_of_srv-none_iff link.srv).1 h.0.0,
          (kind_of_text-none_iff link.text).1 (h.0.2, h.0.3, h.0.4, h.0.5),
          rest.1 h.1,
        ),
      )
]

-- A failed request is taken for a failure of the upstream exactly when it is an error of the
-- connection, or when no error of its chain is a typed size limit, decompression limit or abort of
-- the client, none is a hyper error caused by the user, and none has one of the four phrases in its
-- text.
pub classify_proxy_error-upstream_iff :
    (e : ProxyError)
    → (classify_proxy_error e ≡ kind_upstream_failure)
      ↔ ((e.is_connect ≡ true) ⊎ All IsUpstreamLink e.chain)
unfolding classify_proxy_error
classify_proxy_error-upstream_iff e = ground (arith, classify_chain-upstream_iff e.chain)
