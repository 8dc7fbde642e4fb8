-- ===== src/Gateway/Manage/Sweep.antt =====
-- What sweep_stale_orders of crates/gateway/src/routes.rs leaves in the books.
use serverless_matching_engi.Prelude.{
  ℕ, ◌+◌, String, Bool, true, ◌&&◌, not, List, [], ◌∷◌, ◌≡◌, ◌∙◌, str_eq, eq_iff, arith, ap, sym,
  Bool-cases, inl, inr,
}
use serverless_matching_engi.Ws.Sets.{Family, has, srem, smembers, mem, has-srem, mem-smembers}
use serverless_matching_engi.Gateway.Manage.{
  book_keys, is_live, sweep_members, sweep_books, sweep_stale_orders,
}

module _ (exists_key : String → Bool) where
  sweep_members_lem :
      (key id book : String) (members : List String) (family : Family) (n : ℕ)
      → has key id (sweep_members exists_key book members (family, n)).0 ≡ (
          has key id family
          && not ((str_eq book key && mem id members) && not (is_live exists_key id)))
  unfolding sweep_members mem
  sweep_members_lem key id book [] family n = ground arith
  sweep_members_lem key id book (m ∷ members) family n =
      let agree : str_eq m id ≡ true → is_live exists_key id ≡ is_live exists_key m =
        λ e. ap (is_live exists_key) (sym ((eq_iff m id).0 e)) in
      elim (Bool-cases (is_live exists_key m)) [
        | inl c ↦
            rw (c, sweep_members)
              (sweep_members_lem key id book members family n ∙ ground (arith, agree, c))
        | inr c ↦
            rw (c, sweep_members)
              (sweep_members_lem key id book members (srem book m family) (n + 1)
                ∙ ground (arith, agree, c, has-srem key id book m family))
      ]

  sweep_books_lem :
      (key id : String) (books : List String) (family : Family) (n : ℕ)
      → has key id (sweep_books exists_key books (family, n)).0
        ≡ (has key id family && not (mem key books && not (is_live exists_key id)))
  unfolding sweep_books mem
  sweep_books_lem key id [] family n = ground arith
  sweep_books_lem key id (book ∷ books) family n =
      let swept = sweep_members exists_key book (smembers book family) (family, n) in
      let agree : str_eq book key ≡ true → mem id (smembers book family) ≡ has key id family =
        λ e. mem-smembers book id family ∙ ap (λ k. has k id family) ((eq_iff book key).0 e) in
      sweep_books_lem key id books swept.0 swept.1
      ∙ ground (arith, agree, sweep_members_lem key id book (smembers book family) family n)

  -- A sweep takes an order out of the book of every pair and side exactly if its hash is gone, and
  -- touches nothing else.
  pub sweep_stale_orders_lem :
      (key id : String) (family : Family)
      → has key id (sweep_stale_orders exists_key family).0
        ≡ (has key id family && not (mem key book_keys && not (is_live exists_key id)))
  unfolding sweep_stale_orders
  sweep_stale_orders_lem key id family = sweep_books_lem key id book_keys family 0
