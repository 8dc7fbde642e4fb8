-- ===== src/Ws/Push/Tests.antt =====
-- A push to two subscribers, one of which is gone.
use serverless_matching_engi.Prelude.{
  String, true, some, none, [], ◌∷◌, ◌≡◌, refl, str_eq, arith, eq_iff, if◌then◌else◌,
}
use serverless_matching_engi.Ws.Sets.{has, srem, del, smembers}
use serverless_matching_engi.Ws.Sessions.{Outside, Sessions, leave_all}
use serverless_matching_engi.Ws.Sessions.Mirror.{Mirrored}
use serverless_matching_engi.Ws.Push.{
  Delivery, message, sent, stale_conns, remove_stale, remove_all, push_value, push_channel,
  push_ws_updates,
}
use serverless_matching_engi.Ws.Push.Gone.{Drops, is_dropped, push_ws_updates-Drops}

abbrev outside : Outside
outside = record {
  from_str = λ s. none;
  cached = λ key. some "[]";
  utf8_len = λ s. 6;
  is_alphanumeric = λ c. true;
}

abbrev post : String → String → Delivery
post conn_id msg = if str_eq conn_id "old" then Delivery.gone else Delivery.delivered

abbrev two : Sessions
two = record {
  connections = ("ws:connections", "new") ∷ ("ws:connections", "old") ∷ [];
  subs = ("trades:SOL-USDT", "new") ∷ ("trades:SOL-USDT", "old") ∷ [];
  conns = ("new", "trades:SOL-USDT") ∷ ("old", "trades:SOL-USDT") ∷ [];
  posted = [];
}

pushes : push_ws_updates outside post "SOL-USDT" two ≡ record {
  connections = ("ws:connections", "new") ∷ [];
  subs = ("trades:SOL-USDT", "new") ∷ [];
  conns = ("new", "trades:SOL-USDT") ∷ [];
  posted = ("new", "{\"ch\":\"trades:SOL-USDT\",\"data\":[]}") ∷ [];
}
unfolding push_ws_updates push_channel push_value remove_all remove_stale stale_conns sent message
    leave_all smembers srem del
pushes = refl

two-Mirrored : Mirrored two
unfolding has
two-Mirrored ch conn_id = ground (arith, eq_iff "new" conn_id)

push_ws_updates-Drops_example :
    Drops (is_dropped outside post "SOL-USDT" two) two (push_ws_updates outside post "SOL-USDT" two)
    × Mirrored (push_ws_updates outside post "SOL-USDT" two)
push_ws_updates-Drops_example = push_ws_updates-Drops outside post "SOL-USDT" two two-Mirrored
