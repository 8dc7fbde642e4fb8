-- ===== src/Api/Cancel/Money.antt =====
-- What a request of process_cancellation does to the balances.
use mathlib.Core.List.{map-map}
use serverless_matching_engi.Prelude.{
  ℕ, String, true, Option, none, some, List, [], ◌∷◌, map, ◌≡◌, refl, ap, ◌∙◌, fun_ext, str_eq,
  eq_iff, if◌then◌else◌, Bool-cases, Option-cases, inl, inr, ◌⊎◌,
}
use serverless_matching_engi.Prelude.Int.{ℤ, pos, ◌+ℤ◌, ◌-ℤ◌, int_laws}
use serverless_matching_engi.Types.{Uuid}
use serverless_matching_engi.Cache.Valkey.{Valkey}
use serverless_matching_engi.Worker.Message.{or_else}
use serverless_matching_engi.Worker.Persist.{is_open}
use serverless_matching_engi.Gateway.Orders.{Cancellation, Replacement}
use serverless_matching_engi.Api.Cancel.{
  Account, Context, World, Reply, give_back, release, find_row, refund, cancel_found, cancel_by_id,
  cancel, queue_replacement, then_queue, modify, cancel_each, cancel_all, open_orders, process_as,
  process_cancellation,
}

-- Who makes the request, as the branches read it.
abbrev pub default_user : String → String
default_user type = if str_eq type "cancel_all" then "user-1" else ""

abbrev pub requester : Cancellation → String
requester c = or_else c.user_id (default_user (or_else c.type "cancel"))

abbrev pub total : Account → ℤ
total b = b.available +ℤ b.locked

-- A row with its total, and with the whole row if it is another user's.
abbrev pub View : Type 0
View = String × String × ℤ × Option Account

abbrev pub view : String → Account → View
view user b = (b.user_id, b.asset, total b, if str_eq b.user_id user then none else some b)

move-total : (a l : ℤ) (n : ℕ) → (a +ℤ pos n) +ℤ (l -ℤ pos n) ≡ a +ℤ l
move-total a l n = grind int_laws

abbrev moved : ℕ → Account → Account
moved n b = record b { locked = b.locked -ℤ pos n; available = b.available +ℤ pos n }

moved-view :
    (user : String) (n : ℕ) (b : Account)
    → str_eq b.user_id user ≡ true
    → view user (moved n b) ≡ view user b
moved-view user n b e = rw (view, e, move-total b.available b.locked n)

give_back-cases :
    (user asset : String) (n : ℕ) (b : Account)
    → (give_back user asset n b ≡ b)
      ⊎ ((give_back user asset n b ≡ moved n b) × (str_eq b.user_id user ≡ true))
give_back-cases user asset n b = elim (Bool-cases (str_eq b.user_id user)) [
  | inl e ↦ elim (Bool-cases (str_eq b.asset asset)) [
    | inl f ↦ inr (rw (give_back, e, f), e)
    | inr f ↦ inl (rw (give_back, e, f))
  ]
  | inr e ↦ inl (rw (give_back, e))
]

give_back-view :
    (user asset : String) (n : ℕ) (b : Account) → view user (give_back user asset n b) ≡ view user b
give_back-view user asset n b = elim (give_back-cases user asset n b) [
  | inl same ↦ ap (view user) same
  | inr (eq, e) ↦ ap (view user) eq ∙ moved-view user n b e
]

release-view :
    (user asset : String) (n : ℕ) (bs : List Account)
    → map (view user) (release user asset n bs) ≡ map (view user) bs
unfolding release
release-view user asset n bs =
    map-map (view user) (give_back user asset n) bs
    ∙ ap (λ f. map f bs) (fun_ext (give_back-view user asset n))

module _ (v : Valkey) (ctx : Context) where
  -- The balances of two worlds show the same view.
  abbrev pub SameMoney : String → World v ctx → World v ctx → Type 0
  SameMoney user w w' = map (view user) w'.accounts ≡ map (view user) w.accounts

  cancel_by_id-SameMoney :
      (id : Uuid) (user : String) (w : World v ctx)
      → SameMoney user w (cancel_by_id v ctx id user w)
  unfolding cancel_by_id cancel_found
  cancel_by_id-SameMoney id user w = elim (Option-cases (find_row id user w.orders)) [
    | inl e ↦ rw (e, cancel_by_id)
    | inr (row, e) ↦ elim (Bool-cases (is_open row.status)) [
      | inl f ↦
          rw (e, f, cancel_by_id)
            (release-view user (refund ctx.cost row).0 (refund ctx.cost row).1 w.accounts)
      | inr f ↦ rw (e, f, cancel_by_id)
    ]
  ]

  cancel-SameMoney :
      (text user_id : Option String) (w : World v ctx)
      → SameMoney (or_else user_id "") w (cancel v ctx text user_id w).1
  unfolding cancel
  cancel-SameMoney none user_id w = refl
  cancel-SameMoney (some text) user_id w = elim (Option-cases (ctx.crates.parse_uuid text)) [
    | inl e ↦ rw (e, cancel)
    | inr (id, e) ↦ rw (e, cancel) (cancel_by_id-SameMoney id (or_else user_id "") w)
  ]

  then_queue-accounts :
      (r : Option Replacement) (reply : Reply) (w : World v ctx)
      → (then_queue v ctx r (reply, w)).1.accounts ≡ w.accounts
  unfolding then_queue queue_replacement
  then_queue-accounts r (some e) w = refl
  then_queue-accounts none none w = refl
  then_queue-accounts (some r) none w = refl

  modify-SameMoney :
      (c : Cancellation) (w : World v ctx) → SameMoney (or_else c.user_id "") w (modify v ctx c w).1
  unfolding modify
  modify-SameMoney c w = elim (Option-cases c.order_id) [
    | inl e ↦ rw (e, modify)
    | inr (text, e) ↦
        let user = some (or_else c.user_id "") in
        rw (e, modify)
          (ap (map (view (or_else c.user_id ""))) (
              then_queue-accounts c.new_order (cancel v ctx (some text) user w).0
                (cancel v ctx (some text) user w).1)
            ∙ cancel-SameMoney (some text) user w)
  ]

  cancel_each-SameMoney :
      (user : String) (ids : List Uuid) (w : World v ctx)
      → SameMoney user w (cancel_each v ctx user ids w)
  unfolding cancel_each
  cancel_each-SameMoney user [] w = refl
  cancel_each-SameMoney user (id ∷ ids) w =
      cancel_each-SameMoney user ids
        (cancel v ctx (some (ctx.crates.uuid_to_string id)) (some user) w).1
      ∙ cancel-SameMoney (some (ctx.crates.uuid_to_string id)) (some user) w

  process_as-SameMoney :
      (type : String) (c : Cancellation) (w : World v ctx)
      → SameMoney (or_else c.user_id (default_user type)) w (process_as v ctx type c w).1
  unfolding process_as cancel_all
  process_as-SameMoney type c w = elim (Bool-cases (str_eq type "cancel")) [
    | inl e ↦ rw ((eq_iff type "cancel").0 e, process_as) (cancel-SameMoney c.order_id c.user_id w)
    | inr e ↦ elim (Bool-cases (str_eq type "modify")) [
      | inl f ↦ rw ((eq_iff type "modify").0 f, process_as) (modify-SameMoney c w)
      | inr f ↦ elim (Bool-cases (str_eq type "cancel_all")) [
        | inl g ↦
            let user = or_else c.user_id "user-1" in
            rw ((eq_iff type "cancel_all").0 g, process_as)
              (cancel_each-SameMoney user (open_orders user c.pair_id w.orders) w)
        | inr g ↦ rw (e, f, g, process_as)
      ]
    ]
  ]

  -- Whatever the request, in every row of the balances what is available and what is locked come
  -- to the same total as before, no row is added, removed or given to another user, and the rows of
  -- users other than the one who makes the request stay as they were.
  pub process_cancellation-SameMoney :
      (c : Cancellation) (w : World v ctx)
      → SameMoney (requester c) w (process_cancellation v ctx c w).1
  unfolding process_cancellation
  process_cancellation-SameMoney c w = process_as-SameMoney (or_else c.type "cancel") c w
