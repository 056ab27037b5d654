-- ===== src/Chain/Socket.antt =====
-- internal/chain/cometws/client.go: the websocket client, a new one, and the URL that it dials. The
-- lock of the client, its handler, its hook and its logger are not modelled.
use Prim.Native.Char.{code}
use Prim.Native.String.{[] as nothing, ◌∷◌ as ◌followed◌, ◌++◌ as append}
use cmt_top.Base.{
  Bool, not, ◌&&◌, ◌||◌, String, List, Option, none, some, ◌==◌, String_eq, if◌then◌else◌, nat_eqb,
  length,
}
use cmt_top.Base.Int.{ℤ, pos, ltb, eqb}

pub data TransportState : Type 0 where
  disconnected connecting subscribing live reconnecting : TransportState

pub data SocketFault : Type 0 where
  no_endpoints nil_handler negative_timeout invalid_endpoint wrong_scheme dial_failed read_failed
        canceled :
      SocketFault
  subscribe_failed subscription_refused : String → SocketFault

pub record Client : Type 0 where
  pub endpoints : List String
  pub queries : List String
  pub idle_timeout : ℤ
  pub max_backoff : ℤ
  pub state : TransportState
  pub active : String

pub record Options : Type 0 where
  pub endpoints : List String
  pub queries : List String
  pub has_handler : Bool
  pub idle_timeout : ℤ
  pub max_backoff : ℤ

pub data Made : Type 0 where
  made : Client → Made
  refused : SocketFault → Made

abbrev pub or_thirty_seconds : ℤ → ℤ
or_thirty_seconds d = if eqb d (pos 0) then pos 30000000000 else d

unfoldable pub new_client : Options → Made
new_client opts =
    if nat_eqb (length opts.endpoints) 0
    then refused no_endpoints
    else if not opts.has_handler
    then refused nil_handler
    else if ltb opts.idle_timeout (pos 0) || ltb opts.max_backoff (pos 0)
    then refused negative_timeout
    else made (record {
      endpoints = opts.endpoints;
      queries = opts.queries;
      idle_timeout = or_thirty_seconds opts.idle_timeout;
      max_backoff = or_thirty_seconds opts.max_backoff;
      state = disconnected;
      active = "";
    })

-- What `subscriptionURL` reads and writes of a URL.
pub record SocketUrl : Type 0 where
  pub scheme : String
  pub host : String
  pub path : String
  pub raw_path : String
  pub fragment : String

abbrev pub socket_scheme : String → Option String
socket_scheme s =
    if s == "http" || s == "ws"
    then some "ws"
    else if s == "https" || s == "wss"
    then some "wss"
    else none

pub data Subscribed : Type 0 where
  subscribed : SocketUrl → Subscribed
  unusable : SocketFault → Subscribed

-- `strings.TrimRight(s, "/")`.
unfoldable pub trim_slashes : String → String
trim_slashes nothing = nothing
trim_slashes (c followed s) =
    let rest = trim_slashes s in
    if nat_eqb (code c) 47 && rest == "" then nothing else c followed rest

unfoldable pub subscription_url : Option SocketUrl → Subscribed
subscription_url none = unusable invalid_endpoint
subscription_url (some u) =
    if u.host == "" then unusable invalid_endpoint else elim (socket_scheme u.scheme) [
      | none ↦ unusable wrong_scheme
      | some s ↦ subscribed (record u {
        scheme = s;
        path = append (trim_slashes u.path) "/websocket";
        raw_path = "";
        fragment = "";
      })
    ]
