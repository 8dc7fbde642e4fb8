-- ===== src/Ws/Sessions/Tests.antt =====
-- A connection that subscribes and leaves.
use serverless_matching_engi.Prelude.{true, none, some, [], ◌∷◌, ◌≡◌, refl, subst}
use serverless_matching_engi.Ws.Sets.{has, sadd}
use serverless_matching_engi.Ws.Sessions.{
  Outside, Sessions, WsEvent, all_valid, is_valid_channel, handle_command, handle_subscribe,
  handle_text, handle_default, handle_ws_event, if_array, send_snapshot, subscribe_one,
}
use serverless_matching_engi.Ws.Sessions.Mirror.{Mirrored, handle_ws_event-Mirrored}

abbrev outside : Outside
outside = record {
  from_str = λ s. some (record { subscribe = some (some s ∷ none ∷ []); unsubscribe = none });
  cached = λ key. some "{}";
  utf8_len = λ s. 6;
  is_alphanumeric = λ c. true;
}

abbrev nobody : Sessions
nobody = record { connections = []; subs = []; conns = []; posted = [] }

nobody-Mirrored : Mirrored nobody
unfolding has
nobody-Mirrored ch conn_id = refl

-- One connection in one channel.
abbrev one : Sessions
one = record {
  connections = ("ws:connections", "c1") ∷ [];
  subs = ("trades", "c1") ∷ [];
  conns = ("c1", "trades") ∷ [];
  posted = ("c1", "{\"ch\":\"trades\",\"data\":{}}") ∷ [];
}

abbrev subscription : WsEvent
subscription = record {
  request_context = record { route_key = "message"; connection_id = "c1" };
  body = some "trades";
}

subscribes :
    (handle_ws_event outside subscription
      (record nobody { connections = ("ws:connections", "c1") ∷ [] })).1
    ≡ one
unfolding handle_ws_event handle_default handle_text handle_command if_array handle_subscribe
    subscribe_one send_snapshot is_valid_channel all_valid sadd has
subscribes = refl

handle_ws_event-Mirrored_example : Mirrored (handle_ws_event outside subscription nobody).1
handle_ws_event-Mirrored_example =
    handle_ws_event-Mirrored outside subscription nobody nobody-Mirrored

one-Mirrored : Mirrored one
one-Mirrored = subst Mirrored subscribes (
    handle_ws_event-Mirrored outside subscription
      (record nobody { connections = ("ws:connections", "c1") ∷ [] }) nobody-Mirrored)
