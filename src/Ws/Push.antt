-- ===== src/Ws/Push.antt =====
-- push_ws_updates of crates/gateway/src/worker.rs: the cached values of a pair's three channels are
-- posted to the subscribers, and connections that are gone are taken out of the sets that
-- crates/ws-handler keeps. What the gateway of AWS answers to a post is a parameter, as are the
-- cached values. Commands of Valkey are taken to succeed.
pub mod Gone
mod Tests
use Prim.Native.String.{◌++◌ as append}
use serverless_matching_engi.Prelude.{
  String, Option, none, some, List, [], ◌∷◌, ◌++◌, str_eq, if◌then◌else◌,
}
use serverless_matching_engi.Ws.Sets.{srem, del, smembers}
use serverless_matching_engi.Ws.Sessions.{Outside, Sessions, leave_all}

-- What a post to a connection comes to.
pub data Delivery : Type 0 where
  delivered gone failed : Delivery

unfoldable pub message : String → String → String
message ch val = append "{\"ch\":\"" (append ch (append "\",\"data\":" (append val "}")))

module _ (out : Outside) (post : String → String → Delivery) where
  -- The connections that a message reached, with the message.
  unfoldable pub sent : String → List String → List (String × String)
  sent msg [] = []
  sent msg (conn_id ∷ subscribers) = elim (post conn_id msg) [
    | Delivery.delivered ↦ (conn_id, msg) ∷ sent msg subscribers
    | _ ↦ sent msg subscribers
  ]

  unfoldable pub stale_conns : String → List String → List String
  stale_conns msg [] = []
  stale_conns msg (conn_id ∷ subscribers) = elim (post conn_id msg) [
    | Delivery.gone ↦ conn_id ∷ stale_conns msg subscribers
    | _ ↦ stale_conns msg subscribers
  ]

  -- A stale connection leaves the channel, and every other channel of its list.
  unfoldable pub remove_stale : String → String → Sessions → Sessions
  remove_stale ch stale_id s = record s {
    connections = srem "ws:connections" stale_id s.connections;
    subs = leave_all out stale_id (smembers stale_id s.conns) (srem ch stale_id s.subs);
    conns = del stale_id s.conns;
  }

  unfoldable pub remove_all : String → List String → Sessions → Sessions
  remove_all ch [] s = s
  remove_all ch (stale_id ∷ ids) s = remove_all ch ids (remove_stale ch stale_id s)

  unfoldable pub push_value : String → String → Sessions → Sessions
  push_value ch val s =
      let subscribers = smembers ch s.subs in
      remove_all ch (stale_conns (message ch val) subscribers)
        (record s { posted = s.posted ++ sent (message ch val) subscribers })

  -- A channel with no subscribers, or with no value or an empty one, is passed over.
  unfoldable pub push_channel : String → Sessions → Sessions
  push_channel ch s = elim (smembers ch s.subs) [
    | [] ↦ s
    | _ ∷ _ ↦ elim (out.cached (append "cache:" ch)) [
      | none ↦ s
      | some val ↦ if str_eq val "" then s else push_value ch val s
    ]
  ]

  unfoldable pub push_ws_updates : String → Sessions → Sessions
  push_ws_updates pair_id s =
      push_channel (append "ticker:" pair_id)
        (push_channel (append "trades:" pair_id) (push_channel (append "orderbook:" pair_id) s))
