-- ===== src/Ws/Sessions.antt =====
-- handle_ws_event of crates/ws-handler/src/main.rs with its handlers. JSON and what the standard
-- library says of characters are parameters. Commands of Valkey are taken to succeed. The expiry
-- times that the handlers set are left out.
pub mod Mirror
mod Tests
use Prim.Native.Char.{Char, code}
use Prim.Native.String.{◌++◌ as append}
use serverless_matching_engi.Prelude.{
  ℕ, String, Bool, true, false, not, ◌&&◌, ◌||◌, Option, none, some, List, [], ◌∷◌, ◌++◌, ◌==◌, ltb,
  str_eq, if◌then◌else◌,
}
use serverless_matching_engi.Ws.Sets.{Family, sadd, srem, del, smembers}

pub record RequestContext : Type 0 where
  pub route_key : String
  pub connection_id : String

pub record WsEvent : Type 0 where
  pub request_context : RequestContext
  pub body : Option String

pub record WsResponse : Type 0 where
  pub status_code : ℕ
  pub body : Option String

-- The arrays of a command; an entry that is no text is `none`.
pub record Command : Type 0 where
  pub subscribe : Option (List (Option String))
  pub unsubscribe : Option (List (Option String))

-- `ws:connections`, the families `ws:subs:` and `ws:conn:`, and the messages sent to a connection.
pub record Sessions : Type 0 where
  pub connections : Family
  pub subs : Family
  pub conns : Family
  pub posted : List (String × String)

pub record Outside : Type 0 where
  pub from_str : String → Option Command
  pub cached : String → Option String
  pub utf8_len : String → ℕ
  pub is_alphanumeric : Char → Bool

module _ (out : Outside) where
  unfoldable pub all_valid : String → Bool
  all_valid String.[] = true
  all_valid (String.◌∷◌ c s) =
      (out.is_alphanumeric c || code c == b':' || code c == b'-' || code c == b'_') && all_valid s

  unfoldable pub is_valid_channel : String → Bool
  is_valid_channel ch = if ltb 64 (out.utf8_len ch) then false else all_valid ch

  unfoldable pub handle_connect : String → Sessions → WsResponse × Sessions
  handle_connect conn_id s = (
    record { status_code = 200; body = none },
    record s { connections = sadd "ws:connections" conn_id s.connections },
  )

  -- SREM from the set of each channel.
  unfoldable pub leave_all : String → List String → Family → Family
  leave_all conn_id [] subs = subs
  leave_all conn_id (ch ∷ channels) subs = leave_all conn_id channels (srem ch conn_id subs)

  unfoldable pub handle_disconnect : String → Sessions → WsResponse × Sessions
  handle_disconnect conn_id s = (
    record { status_code = 200; body = none },
    record {
      connections = srem "ws:connections" conn_id s.connections;
      subs = leave_all conn_id (smembers conn_id s.conns) s.subs;
      conns = del conn_id s.conns;
      posted = s.posted;
    },
  )

  -- The cached value of the channel, if there is one that is not empty.
  unfoldable pub send_snapshot : String → String → List (String × String) → List (String × String)
  send_snapshot conn_id ch posted = elim (out.cached (append "cache:" ch)) [
    | none ↦ posted
    | some val ↦
        if str_eq val ""
        then posted
        else posted
          ++ (conn_id, append "{\"ch\":\"" (append ch (append "\",\"data\":" (append val "}"))))
            ∷ []
  ]

  unfoldable pub subscribe_one : String → Option String → Sessions → Sessions
  subscribe_one conn_id none s = s
  subscribe_one conn_id (some ch) s =
      if is_valid_channel ch
      then record {
        connections = s.connections;
        subs = sadd ch conn_id s.subs;
        conns = sadd conn_id ch s.conns;
        posted = send_snapshot conn_id ch s.posted;
      }
      else s

  unfoldable pub handle_subscribe : String → List (Option String) → Sessions → Sessions
  handle_subscribe conn_id [] s = s
  handle_subscribe conn_id (ch ∷ channels) s =
      handle_subscribe conn_id channels (subscribe_one conn_id ch s)

  unfoldable pub unsubscribe_one : String → Option String → Sessions → Sessions
  unsubscribe_one conn_id none s = s
  unsubscribe_one conn_id (some ch) s = record s {
    subs = srem ch conn_id s.subs;
    conns = srem conn_id ch s.conns;
  }

  unfoldable pub handle_unsubscribe : String → List (Option String) → Sessions → Sessions
  handle_unsubscribe conn_id [] s = s
  handle_unsubscribe conn_id (ch ∷ channels) s =
      handle_unsubscribe conn_id channels (unsubscribe_one conn_id ch s)

  unfoldable pub if_array :
      (List (Option String) → Sessions → Sessions)
      → Option (List (Option String))
      → Sessions
      → Sessions
  if_array handle none s = s
  if_array handle (some channels) s = handle channels s

  -- The subscriptions of a command first, then what it unsubscribes.
  unfoldable pub handle_command : String → Command → Sessions → Sessions
  handle_command conn_id cmd s =
      if_array (handle_unsubscribe conn_id) cmd.unsubscribe
        (if_array (handle_subscribe conn_id) cmd.subscribe s)

  unfoldable pub handle_text : String → String → Sessions → WsResponse × Sessions
  handle_text conn_id body s =
      if str_eq body ""
      then (record { status_code = 200; body = none }, s)
      else elim (out.from_str body) [
        | none ↦ (record { status_code = 400; body = some "invalid JSON" }, s)
        | some cmd ↦ (record { status_code = 200; body = none }, handle_command conn_id cmd s)
      ]

  unfoldable pub handle_default : String → Option String → Sessions → WsResponse × Sessions
  handle_default conn_id none s = (record { status_code = 200; body = none }, s)
  handle_default conn_id (some body) s = handle_text conn_id body s

  unfoldable pub handle_ws_event : WsEvent → Sessions → WsResponse × Sessions
  handle_ws_event event s =
      let conn_id = event.request_context.connection_id in
      let route = event.request_context.route_key in
      if str_eq route "$connect"
      then handle_connect conn_id s
      else if str_eq route "$disconnect"
      then handle_disconnect conn_id s
      else handle_default conn_id event.body s
