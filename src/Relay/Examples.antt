-- ===== src/Relay/Examples.antt =====
-- A relay for `a.de`, a client in three segments, and two gateways that register at once.
use praeco_rs.Prelude.{
  ℕ, ◌≡◌, refl, Bool, true, false, Option, none, some, List, [], ◌∷◌, ◌++◌, Elem, Bytes, bytes_eq,
  bytes_eq_iff, codes, get_elem?, arith,
}
use praeco_rs.DashMap.{DashMap, assoc}
use praeco_rs.BigEndian.{from_be}
use praeco_rs.PathSanitizer.{to_ascii_lowercase}
use praeco_rs.ProxyProtocol.{SocketAddr, sock_v4, encode_proxy_v2, read_proxy_v2, done}
use praeco_rs.ProxyProtocol.Roundtrip.{plain}
use praeco_rs.Relay.Hello.{
  Segment, arrived, hello, read_client_hello_record, header_read, read_record, payload_read, fill,
  read,
}
use praeco_rs.Relay.Fragments.{bytes_of, read_client_hello_record_whole}
use praeco_rs.Relay.Register.{
  UnicodeOps, read_register, split_whitespace, lowercase, eq_ignore_ascii_case, chars, is_label,
  is_valid_sni, authorize_words, authorize,
}
use praeco_rs.Relay.Lines.{read_register-line, authorize-named}
use praeco_rs.Relay.Tunnels.{
  TunnelRoute, Task, driving, ending, Relay, new_relay, may_register, register, remove_own, passed,
  registered, ended, Reach, here, next,
}
use praeco_rs.Relay.Owners.{Reach-driven}
use praeco_rs.Relay.Route.{through, pass_on, by_hello, by_sni, through_tunnel, opening_of}
use praeco_rs.Relay.Passage.{pass_on-read_proxy_v2}

abbrev ascii : UnicodeOps
ascii = record { is_utf8 = λ bytes. true; is_alphanumeric = λ char. false }

abbrev table : DashMap Bytes TunnelRoute
table = assoc bytes_eq bytes_eq_iff

abbrev sni : Bytes
sni = codes "a.de"

abbrev request : Bytes
request = codes "REGISTER A.de PROXY_V2"

abbrev names : List Bytes
names = codes "b.de" ∷ codes "A.DE" ∷ []

request_authorized : authorize ascii true names request ≡ some (sni, true)
unfolding authorize authorize_words split_whitespace is_valid_sni is_label chars
    eq_ignore_ascii_case
request_authorized = refl

-- Not with another's name, a bad label or no certificate's name.
request_refused :
    (authorize ascii true (codes "b.de" ∷ []) request ≡ none)
    × (authorize ascii true (codes "-a.de" ∷ []) (codes "REGISTER -a.de") ≡ none)
    × (authorize ascii true [] request ≡ none)
unfolding authorize authorize_words split_whitespace is_valid_sni is_label chars
    eq_ignore_ascii_case
request_refused = (refl, refl, refl)

authorize-named_example :
    (is_valid_sni ascii sni ≡ true)
    × ((allowed : Bytes) × Elem allowed names × (lowercase allowed ≡ lowercase sni))
authorize-named_example = authorize-named ascii true names request sni true request_authorized

read_register-line_example :
    read_register (codes "REG" ++ 10 ∷ (0 ∷ 1 ∷ [])) ≡ some (codes "REG", 0 ∷ 1 ∷ [])
read_register-line_example =
    read_register-line (codes "REG") (0 ∷ 1 ∷ []) (ground arith) (omega arith)

-- A record of two bytes in three segments, the last with a byte of what follows.
abbrev pieces : List Segment
pieces = arrived 0x16 (3 ∷ []) ∷ arrived 1 (0 ∷ 2 ∷ 7 ∷ []) ∷ arrived 8 (9 ∷ []) ∷ []

abbrev record_bytes : Bytes
record_bytes = 0x16 ∷ 3 ∷ 1 ∷ 0 ∷ 2 ∷ 7 ∷ 8 ∷ []

read_client_hello_record_whole_example :
    (left : List Segment) × (read_client_hello_record pieces ≡ (hello record_bytes, left))
    × (bytes_of left ≡ 9 ∷ [])
unfolding from_be
read_client_hello_record_whole_example =
    read_client_hello_record_whole 3 1 0 2 (7 ∷ 8 ∷ []) (9 ∷ []) pieces tt refl refl (omega arith)

abbrev client : SocketAddr
client = sock_v4 0xc633642a 54321

abbrev local : SocketAddr
local = sock_v4 0xcb007101 443

abbrev named : Bytes → Option Bytes
named buf = some (codes "A.de")

abbrev opens : TunnelRoute → Bool
opens route = true

abbrev takes : TunnelRoute → Bytes → Bool
takes route bytes = true

-- One passes the checks and registers.
abbrev one : Relay table
one = register table (record (new_relay table) { tasks = Task.checked sni true ∷ [] }) 0 sni true

passed_on : pass_on ascii named table opens takes client local one pieces ≡ (
  through
      (record { generation = 1; supports_proxy_v2 = true })
      (encode_proxy_v2 client local ++ record_bytes),
  arrived 9 [] ∷ [],
)
unfolding pass_on by_hello by_sni through_tunnel opening_of is_valid_sni is_label chars
    read_client_hello_record header_read read_record payload_read fill read register new_relay
    to_ascii_lowercase assoc
passed_on = refl

pass_on-read_proxy_v2_example :
    (buf : Bytes) × (name : Bytes) × (read_client_hello_record pieces
      ≡ (hello buf, arrived 9 [] ∷ []))
    × (named buf ≡ some name)
    × (table.get (lowercase name) one.tunnels
        ≡ some (record { generation = 1; supports_proxy_v2 = true }))
    × (read_proxy_v2 ((encode_proxy_v2 client local ++ record_bytes) ++ 9 ∷ [])
        ≡ done (some (plain client)) (buf ++ 9 ∷ []))
pass_on-read_proxy_v2_example =
    pass_on-read_proxy_v2 ascii named table opens takes client local one pieces (arrived 9 [] ∷ [])
      (record { generation = 1; supports_proxy_v2 = true })
      (encode_proxy_v2 client local ++ record_bytes) (9 ∷ []) (omega arith) passed_on refl

-- Two gateways with the same name pass the checks before either registers.
abbrev waiting : Task
waiting = Task.checked sni true

abbrev both : Relay table
both = record (new_relay table) { tasks = ([] ++ waiting ∷ []) ++ waiting ∷ [] }

abbrev both_registered : Relay table
both_registered = register table (register table both 0 sni true) 1 sni true

both_reached : Reach table ascii true (new_relay table) both_registered
unfolding register new_relay may_register assoc
both_reached =
    next
      (next
        (next (next here (passed (new_relay table) request names sni true request_authorized refl))
          (passed (record (new_relay table) { tasks = [] ++ waiting ∷ [] }) request names sni true
            request_authorized refl))
        (registered both 0 sni true refl))
      (registered (register table both 0 sni true) 1 sni true refl)

-- When the later one ends, the earlier still drives its tunnel, and the name has no entry.
overwritten :
    (t : Relay table) × Reach table ascii true (new_relay table) t
    × (get_elem? t.tasks 0 ≡ some (driving sni 1))
    × (table.get sni t.tunnels ≡ none)
unfolding register new_relay remove_own assoc
overwritten = (
  record both_registered {
    tunnels = remove_own table 2 sni both_registered.tunnels;
    tasks = driving sni 1 ∷ ending 2 ∷ [];
  },
  next both_reached (ended both_registered 1 sni 2 refl),
  refl,
  refl,
)

Reach-driven_example :
    (may_register table both_registered sni ≡ false)
    × ((i : ℕ) × (get_elem? both_registered.tasks i ≡ some (driving sni 2)))
unfolding register new_relay assoc
Reach-driven_example =
    Reach-driven table ascii true both_registered sni
      (record { generation = 2; supports_proxy_v2 = true }) both_reached refl
