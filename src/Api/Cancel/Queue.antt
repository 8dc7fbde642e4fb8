-- ===== src/Api/Cancel/Queue.antt =====
-- The cancellations that the handlers of crates/gateway/src/routes.rs queue, as
-- process_cancellation of crates/api/src/worker.rs carries them out.
use mathlib.Core.List.{map-map, map-id}
use serverless_matching_engi.Prelude.{
  String, false, Option, none, some, List, [], ◌∷◌, map, ◌≡◌, refl, sym, ap, ◌∙◌, fun_ext, str_eq,
  Bool-cases, Option-cases, inl, inr, All, subst, ◌==◌,
}
use serverless_matching_engi.Types.{Order, Uuid, DateTime}
use serverless_matching_engi.Cache.Valkey.{Valkey}
use serverless_matching_engi.Worker.Message.{or_else}
use serverless_matching_engi.Worker.Persist.{is_open}
use serverless_matching_engi.Gateway.Orders.{Printers, cancel_json, modify_json, cancel_all_json}
use serverless_matching_engi.Api.Cancel.{
  Context, World, Reply, find_row, cancel_found, cancel_by_id, cancel, then_queue,
  queue_replacement, modify, cancel_each, cancel_all, open_orders, process_as, process_cancellation,
}
use serverless_matching_engi.Api.Cancel.Rows.{
  ids_of, Distinct, close, after_cancel, after_cancel_lem, close-close, ids_of-close, close_wanted,
  close-open_orders,
}

module _ (v : Valkey) (ctx : Context) where
  cancel_by_id-orders :
      (id : Uuid) (user : String) (w : World v ctx)
      → (cancel_by_id v ctx id user w).orders
        ≡ after_cancel id user ctx.crates.now w.orders (find_row id user w.orders)
  unfolding cancel_by_id cancel_found
  cancel_by_id-orders id user w = elim (Option-cases (find_row id user w.orders)) [
    | inl e ↦ rw (e, cancel_by_id)
    | inr (row, e) ↦ elim (Bool-cases (is_open row.status)) [
      | inl f ↦ rw (e, f, cancel_by_id)
      | inr f ↦ rw (e, f, cancel_by_id)
    ]
  ]

  -- A request to cancel one order succeeds if the order's number can be read, and cancels exactly
  -- the row that has this number, belongs to the user of the request and is open; no other row
  -- changes. The numbers of the rows are distinct.
  pub cancel-orders :
      (text user : String) (id : Uuid) (w : World v ctx)
      → ctx.crates.parse_uuid text ≡ some id
      → Distinct (ids_of w.orders)
      → let (reply, w') = cancel v ctx (some text) (some user) w in
        (reply ≡ none) × (w'.orders ≡ map (close (id ∷ []) user ctx.crates.now) w.orders)
  unfolding cancel
  cancel-orders text user id w e h =
      rw (e, cancel)
        (refl, cancel_by_id-orders id user w ∙ after_cancel_lem id user ctx.crates.now w.orders h)

  module _
      (uuid_back : (id : Uuid)
        → ctx.crates.parse_uuid (ctx.crates.uuid_to_string id) ≡ some id) where
    cancel_each-orders :
        (user : String) (ids : List Uuid) (w : World v ctx)
        → Distinct (ids_of w.orders)
        → (cancel_each v ctx user ids w).orders ≡ map (close ids user ctx.crates.now) w.orders
    unfolding cancel_each
    cancel_each-orders user [] w h = sym (map-id w.orders)
    cancel_each-orders user (id ∷ ids) w h =
        cancel_each-orders user ids w'
          (subst Distinct (sym (ap ids_of one ∙ ids_of-close (id ∷ []) user now w.orders)) h)
        ∙ ap (map (close ids user now)) one
        ∙ map-map (close ids user now) (close (id ∷ []) user now) w.orders
        ∙ ap (λ f. map f w.orders) (fun_ext (close-close id ids user now))
      where
        now : DateTime
        now = ctx.crates.now

        text : String
        text = ctx.crates.uuid_to_string id

        w' : World v ctx
        w' = (cancel v ctx (some text) (some user) w).1

        one : w'.orders ≡ map (close (id ∷ []) user now) w.orders
        one = (cancel-orders text user id w (uuid_back id) h).1

    -- The request that the handler cancel_all_orders queues cancels exactly the open orders of the
    -- user, in one pair if the request names one; no other row changes. The numbers of the rows are
    -- distinct, and the number of an order is read back from its text.
    pub process_cancellation-cancel_all :
        (p : Printers) (user_id pair_id : Option String) (w : World v ctx)
        → Distinct (ids_of w.orders)
        → (process_cancellation v ctx (cancel_all_json p user_id pair_id) w).1.orders
          ≡ map (close_wanted (or_else user_id "user-1") pair_id ctx.crates.now) w.orders
    unfolding process_cancellation process_as cancel_all cancel_all_json
    process_cancellation-cancel_all p user_id pair_id w h =
        let user = or_else user_id "user-1" in
        cancel_each-orders user (open_orders user pair_id w.orders) w h
        ∙ close-open_orders user pair_id ctx.crates.now w.orders h

  find_row-nobody :
      (id : Uuid) (rows : List Order)
      → All (λ o. str_eq o.user_id "" ≡ false) rows
      → find_row id "" rows ≡ none
  unfolding find_row
  find_row-nobody id [] h = refl
  find_row-nobody id (o ∷ rows) h = elim (Bool-cases (o.id == id)) [
    | inl e ↦ rw (e, h.0, find_row-nobody id rows h.1)
    | inr e ↦ rw (e, find_row-nobody id rows h.1)
  ]

  cancel-nobody :
      (text : String) (w : World v ctx)
      → All (λ o. str_eq o.user_id "" ≡ false) w.orders
      → (cancel v ctx (some text) (some "") w).1 ≡ w
  unfolding cancel cancel_by_id
  cancel-nobody text w h = elim (Option-cases (ctx.crates.parse_uuid text)) [
    | inl e ↦ rw (e, cancel)
    | inr (id, e) ↦ rw (e, cancel) (rw (cancel_by_id, find_row-nobody id w.orders h))
  ]

  then_queue-none : (reply : Reply) (w : World v ctx) → (then_queue v ctx none (reply, w)).1 ≡ w
  unfolding then_queue queue_replacement
  then_queue-none none w = refl
  then_queue-none (some e) w = refl

  -- The requests that the handlers cancel_order and modify_order queue change nothing, unless there
  -- is an order whose user has the empty name: they carry neither the user of the order nor the
  -- order that is to replace it.
  pub process_cancellation-nobody :
      (p : Printers) (id : Uuid) (w : World v ctx)
      → All (λ o. str_eq o.user_id "" ≡ false) w.orders
      → ((process_cancellation v ctx (cancel_json p id) w).1 ≡ w)
        × ((process_cancellation v ctx (modify_json p id) w).1 ≡ w)
  unfolding process_cancellation process_as modify cancel cancel_json modify_json
  process_cancellation-nobody p id w h =
      let text = p.uuid_to_string id in
      (
        cancel-nobody text w h,
        then_queue-none (cancel v ctx (some text) (some "") w).0
              (cancel v ctx (some text) (some "") w).1
            ∙ cancel-nobody text w h,
      )
