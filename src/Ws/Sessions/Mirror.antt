-- ===== src/Ws/Sessions/Mirror.antt =====
-- The two families of sets of the WebSocket handler against each other.
use serverless_matching_engi.Prelude.{
  String, false, not, ◌&&◌, Option, none, some, List, [], ◌∷◌, ◌≡◌, str_eq, eq_iff, arith,
  Bool-cases, inl, inr, Option-cases,
}
use serverless_matching_engi.Ws.Sets.{
  Family, has, mem, smembers, srem, has-sadd, has-srem, has-del, mem-smembers,
}
use serverless_matching_engi.Ws.Sessions.{
  Outside, Sessions, WsEvent, is_valid_channel, leave_all, handle_connect, handle_disconnect,
  subscribe_one, handle_subscribe, unsubscribe_one, handle_unsubscribe, if_array, handle_command,
  handle_text, handle_default, handle_ws_event,
}

-- A connection is a member of a channel's set exactly when the channel is one of the connection's.
abbrev pub Mirrored : Sessions → Type 0
Mirrored s = (ch conn_id : String) → has ch conn_id s.subs ≡ has conn_id ch s.conns

module _ (out : Outside) where
  pub has-leave_all :
      (ch d conn_id : String) (channels : List String) (subs : Family)
      → has ch d (leave_all out conn_id channels subs)
        ≡ (not (str_eq conn_id d && mem ch channels) && has ch d subs)
  unfolding leave_all mem
  has-leave_all ch d conn_id [] subs = ground arith
  has-leave_all ch d conn_id (x ∷ channels) subs = ground (
    arith,
    has-leave_all ch d conn_id channels (srem x conn_id subs),
    has-srem ch d x conn_id subs,
  )

  subscribe_one-Mirrored :
      (conn_id : String) (ch : Option String) (s : Sessions)
      → Mirrored s
      → Mirrored (subscribe_one out conn_id ch s)
  unfolding subscribe_one
  subscribe_one-Mirrored conn_id none s h = h
  subscribe_one-Mirrored conn_id (some ch) s h = elim (Bool-cases (is_valid_channel out ch)) [
    | inl e ↦ rw e (λ x d.
        ground (arith, has-sadd x d ch conn_id s.subs, has-sadd d x conn_id ch s.conns, h x d))
    | inr e ↦ rw e h
  ]

  unsubscribe_one-Mirrored :
      (conn_id : String) (ch : Option String) (s : Sessions)
      → Mirrored s
      → Mirrored (unsubscribe_one out conn_id ch s)
  unfolding unsubscribe_one
  unsubscribe_one-Mirrored conn_id none s h = h
  unsubscribe_one-Mirrored conn_id (some ch) s h =
      λ x d. ground (arith, has-srem x d ch conn_id s.subs, has-srem d x conn_id ch s.conns, h x d)

  handle_subscribe-Mirrored :
      (conn_id : String) (channels : List (Option String)) (s : Sessions)
      → Mirrored s
      → Mirrored (handle_subscribe out conn_id channels s)
  unfolding handle_subscribe
  handle_subscribe-Mirrored conn_id [] s h = h
  handle_subscribe-Mirrored conn_id (ch ∷ channels) s h =
      handle_subscribe-Mirrored conn_id channels (subscribe_one out conn_id ch s)
        (subscribe_one-Mirrored conn_id ch s h)

  handle_unsubscribe-Mirrored :
      (conn_id : String) (channels : List (Option String)) (s : Sessions)
      → Mirrored s
      → Mirrored (handle_unsubscribe out conn_id channels s)
  unfolding handle_unsubscribe
  handle_unsubscribe-Mirrored conn_id [] s h = h
  handle_unsubscribe-Mirrored conn_id (ch ∷ channels) s h =
      handle_unsubscribe-Mirrored conn_id channels (unsubscribe_one out conn_id ch s)
        (unsubscribe_one-Mirrored conn_id ch s h)

  if_array-Mirrored :
      (handle : List (Option String) → Sessions → Sessions)
      → ((channels : List (Option String)) (s : Sessions)
          → Mirrored s
          → Mirrored (handle channels s))
      → (array : Option (List (Option String))) (s : Sessions) → Mirrored s
      → Mirrored (if_array out handle array s)
  unfolding if_array
  if_array-Mirrored handle k none s h = h
  if_array-Mirrored handle k (some channels) s h = k channels s h

  handle_disconnect-Mirrored :
      (conn_id : String) (s : Sessions) → Mirrored s → Mirrored (handle_disconnect out conn_id s).1
  unfolding handle_disconnect
  handle_disconnect-Mirrored conn_id s h = λ x d. ground (
    arith,
    has-leave_all x d conn_id (smembers conn_id s.conns) s.subs,
    mem-smembers conn_id x s.conns,
    has-del d x conn_id s.conns,
    h x d,
    eq_iff conn_id d,
  )

  handle_default-Mirrored :
      (conn_id : String) (body : Option String) (s : Sessions)
      → Mirrored s
      → Mirrored (handle_default out conn_id body s).1
  unfolding handle_default handle_text handle_command
  handle_default-Mirrored conn_id none s h = h
  handle_default-Mirrored conn_id (some body) s h = elim (Bool-cases (str_eq body "")) [
    | inl e ↦ rw e h
    | inr e ↦ elim (Option-cases (out.from_str body)) [
      | inl n ↦ rw (e, n) h
      | inr (cmd, n) ↦
          rw (e, n)
            (if_array-Mirrored _ (handle_unsubscribe-Mirrored conn_id) cmd.unsubscribe _
              (if_array-Mirrored _ (handle_subscribe-Mirrored conn_id) cmd.subscribe s h))
    ]
  ]

  -- Whatever the event, the sets of the channels and those of the connections go on to mirror each
  -- other.
  pub handle_ws_event-Mirrored :
      (event : WsEvent) (s : Sessions) → Mirrored s → Mirrored (handle_ws_event out event s).1
  unfolding handle_ws_event handle_connect
  handle_ws_event-Mirrored event s h =
      elim (Bool-cases (str_eq event.request_context.route_key "$connect")) [
        | inl e ↦ rw e h
        | inr e ↦ elim (Bool-cases (str_eq event.request_context.route_key "$disconnect")) [
          | inl d ↦ rw (e, d) (handle_disconnect-Mirrored event.request_context.connection_id s h)
          | inr d ↦
              rw (e, d) (handle_default-Mirrored event.request_context.connection_id event.body s h)
        ]
      ]

  -- A connection that disconnects is in no set of subscribers and in no list of connections, if the
  -- two families mirrored each other before.
  pub handle_disconnect_gone :
      (conn_id : String) (s : Sessions)
      → Mirrored s
      → let s' = (handle_disconnect out conn_id s).1 in
        ((ch : String) → has ch conn_id s'.subs ≡ false)
        × (has "ws:connections" conn_id s'.connections ≡ false)
  unfolding handle_disconnect
  handle_disconnect_gone conn_id s h = (
    (λ ch. ground (
      arith,
      has-leave_all ch conn_id conn_id (smembers conn_id s.conns) s.subs,
      mem-smembers conn_id ch s.conns,
      h ch conn_id,
      eq_iff conn_id conn_id,
    )),
    ground (
      arith,
      has-srem "ws:connections" conn_id "ws:connections" conn_id s.connections,
      eq_iff conn_id conn_id,
    ),
  )
