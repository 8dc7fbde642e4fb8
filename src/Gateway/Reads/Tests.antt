-- ===== src/Gateway/Reads/Tests.antt =====
-- The views of a user at inputs.
use serverless_matching_engi.Prelude.{
  ℕ, ◌+◌, false, String, Option, none, some, List, [], ◌∷◌, ◌≡◌, refl, arith, ltb, if◌then◌else◌,
  str_eq,
}
use serverless_matching_engi.Gateway.UserCache.{
  Stored, get_cached, set_cached, put_stored, find_stored,
}
use serverless_matching_engi.Gateway.Reads.{read_view, list_orders, get_portfolio}
use serverless_matching_engi.Gateway.Reads.Recent.{
  View, Request, serve, serve_all, Answers, serve-Answers,
}

-- Valkey has one view of alice up to the time 1000, and another one from then on.
abbrev found : ℕ → String → Option String
found t key =
    if str_eq key "cache:orders:alice"
    then (if ltb t 1000 then some "old" else some "new")
    else none

abbrev request : View → String → ℕ → Request
request view user begin = record {
  view = view;
  user_id = some user;
  begin = begin;
  read = begin + 20;
  failed = false;
  end = begin + 50;
}

abbrev earlier : List (Request × List Stored)
earlier = (request View.orders "alice" 500, []) ∷ (request View.portfolio "bob" 900, []) ∷ []

-- The cached answer, and after its time to live the new one.
cached :
    (serve found 100 (request View.orders "alice" 2400) (serve_all found 100 earlier []) []).0
    ≡ "old"
unfolding list_orders get_portfolio read_view get_cached set_cached put_stored find_stored
cached = refl

expired :
    (serve found 100 (request View.orders "alice" 2550) (serve_all found 100 earlier []) []).0
    ≡ "new"
unfolding list_orders get_portfolio read_view get_cached set_cached put_stored find_stored
expired = refl

serve-Answers_example :
    Answers found 100
      (request View.orders "alice" 2400)
      (serve found 100 (request View.orders "alice" 2400) (serve_all found 100 earlier []) []).0
serve-Answers_example =
    serve-Answers found 100 earlier (request View.orders "alice" 2400) []
      ((omega arith, omega arith, omega arith), ((omega arith, omega arith, omega arith), tt))
