-- ===== src/Api/Orders/Marks.antt =====
-- The channel of users whose portfolio changed, in crates/api/src/worker.rs: who is in it after the
-- trades of an order.
use serverless_matching_engi.Prelude.{
  ℕ, ◌≤◌, String, Bool, true, false, ◌||◌, List, [], ◌∷◌, ◌++◌, ◌≡◌, str_eq, eq_iff, eq_refl, arith,
  Bool-cases, inl, inr, ◌⊎◌, length, length-append, All, suc,
}
use serverless_matching_engi.Types.{Order, Trade}
use serverless_matching_engi.Cache.Match.{LuaTrade}
use serverless_matching_engi.Worker.Process.{Context, build_trades, build_trade}
use serverless_matching_engi.Api.Orders.Handing.{try_send, mark_user, mark_users}

abbrev pub is_in : String → List String → Bool
is_in user [] = false
is_in user (u ∷ users) = str_eq u user || is_in user users

-- The user is in the channel, or the channel is full.
abbrev pub Reached : ℕ → String → List String → Type 0
Reached capacity user users = (is_in user users ≡ true) ⊎ (capacity ≤ length users)

pub is_in-push :
    (user u : String) (users : List String)
    → is_in user (users ++ u ∷ []) ≡ (is_in user users || str_eq u user)
is_in-push user u [] = ground arith
is_in-push user u (w ∷ users) = ground (arith, is_in-push user u users)

pub try_send-Reached :
    (n : ℕ) (user : String) (users : List String) → Reached n user (try_send n user users)
unfolding try_send
try_send-Reached n user users = ground (arith, is_in-push user user users, eq_refl user)

try_send-keeps :
    (n : ℕ) (user u : String) (users : List String)
    → Reached n user users
    → Reached n user (try_send n u users)
unfolding try_send
try_send-keeps n user u users h =
    ground (arith, is_in-push user u users, length-append users (u ∷ []))

module _ (n : ℕ) (owner : String) where
  mark_user-keeps :
      (user u : String) (users : List String)
      → Reached n user users
      → Reached n user (mark_user n owner u users)
  mark_user-keeps user u users h = elim (Bool-cases (str_eq u owner)) [
    | inl e ↦ rw e h
    | inr e ↦ rw e (try_send-keeps n user u users h)
  ]

  mark_user-Reached :
      (user : String) (users : List String)
      → Reached n owner users
      → Reached n user (mark_user n owner user users)
  mark_user-Reached user users h = elim (Bool-cases (str_eq user owner)) [
    | inl e ↦ rw (e, (eq_iff user owner).0 e) h
    | inr e ↦ rw e (try_send-Reached n user users)
  ]

  pub mark_users-keeps :
      (user : String) (ts : List LuaTrade) (users : List String)
      → Reached n user users
      → Reached n user (mark_users n owner ts users)
  unfolding mark_users
  mark_users-keeps user [] users h = h
  mark_users-keeps user (t ∷ ts) users h =
      mark_users-keeps user ts _
        (mark_user-keeps user t.seller_id _ (mark_user-keeps user t.buyer_id users h))

  -- Both users of a trade.
  abbrev pub BothReached : List String → Trade → Type 0
  BothReached users t = Reached n t.buyer_id users × Reached n t.seller_id users

  pub mark_users-Reached :
      (ctx : Context) (o : Order) (i : ℕ) (ts : List LuaTrade) (users : List String)
      → Reached n owner users
      → All (BothReached (mark_users n owner ts users)) (build_trades ctx.new_uuid ctx.now o i ts)
  unfolding mark_users build_trades build_trade
  mark_users-Reached ctx o i [] users h = tt
  mark_users-Reached ctx o i (t ∷ ts) users h =
      let with_buyer = mark_user n owner t.buyer_id users in
      let with_both = mark_user n owner t.seller_id with_buyer in
      let kept = mark_user-keeps owner t.buyer_id users h in
      let buyer =
        mark_user-keeps t.buyer_id t.seller_id with_buyer (mark_user-Reached t.buyer_id users h) in
      let seller = mark_user-Reached t.seller_id with_buyer kept in
      (
        (
          mark_users-keeps t.buyer_id ts with_both buyer,
          mark_users-keeps t.seller_id ts with_both seller,
        ),
        mark_users-Reached ctx o (suc i) ts with_both
            (mark_user-keeps owner t.seller_id with_buyer kept),
      )
