-- ===== src/Gateway/Reads.antt =====
-- list_orders and get_portfolio of crates/gateway/src/routes.rs: the view of one user, from the
-- cache of answers or else from Valkey. A call looks into the cache at one time, waits for the reply
-- to GET and stores at a later one; others may change the cache meanwhile, so both its states and
-- both times are parameters, and so is the reply, which has no text for a missing key and for a
-- failing GET. A connection that cannot be had, which fails the call, is not modelled.
pub mod Recent
mod Tests
use Prim.Native.String.{◌++◌ as append}
use serverless_matching_engi.Prelude.{
  ℕ, String, Bool, Option, none, some, List, str_eq, if◌then◌else◌,
}
use serverless_matching_engi.Gateway.UserCache.{Stored, get_cached, set_cached}

abbrev pub or_default : Option String → String → String
or_default none default = default
or_default (some value) default = value

-- The answer that is found in the cache `seen` at the time `begin`, or else the reply, which is then
-- stored in `cache` at the time `end` unless it is the empty object.
unfoldable pub read_view :
    (begin end : ℕ) (reply : Option String) (key default : String) (seen cache : List Stored)
    → String × List Stored
read_view begin end reply key default seen cache = elim (get_cached begin key seen) [
  | some answer ↦ (answer, cache)
  | none ↦
      let cached = or_default reply "{}" in
      if str_eq cached "{}" then (default, cache) else (cached, set_cached end key cached cache)
]

abbrev pub user_or_first : Option String → String
user_or_first user_id = or_default user_id "user-1"

abbrev pub orders_key : Option String → String
orders_key user_id = append "cache:orders:" (user_or_first user_id)

abbrev pub portfolio_key : Option String → String
portfolio_key user_id = append "cache:portfolio:" (user_or_first user_id)

abbrev pub no_orders : String
no_orders = "{\"orders\":[],\"total\":0,\"limit\":50,\"offset\":0}"

abbrev pub no_balances : String
no_balances = "{\"balances\":[]}"

unfoldable pub list_orders :
    (begin end : ℕ) (reply user_id : Option String) (seen cache : List Stored)
    → String × List Stored
list_orders begin end reply user_id = read_view begin end reply (orders_key user_id) no_orders

unfoldable pub get_portfolio :
    (begin end : ℕ) (reply user_id : Option String) (seen cache : List Stored)
    → String × List Stored
get_portfolio begin end reply user_id =
    read_view begin end reply (portfolio_key user_id) no_balances
