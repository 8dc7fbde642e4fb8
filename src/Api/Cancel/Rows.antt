-- ===== src/Api/Cancel/Rows.antt =====
-- Which rows of the orders a request of process_cancellation cancels.
use mathlib.Core.List.{map-map}
use serverless_matching_engi.Prelude.{
  ℕ, String, Bool, true, false, Option, none, some, List, [], ◌∷◌, map, ◌≡◌, refl, sym, ap, ◌∙◌,
  fun_ext, ◌&&◌, ◌||◌, ◌==◌, str_eq, if◌then◌else◌, Bool-cases, inl, inr, All, arith, ==_iff, subst,
}
use serverless_matching_engi.Types.{Order, Uuid, DateTime}
use serverless_matching_engi.Worker.Persist.{is_open}
use serverless_matching_engi.Api.Cancel.{
  find_row, cancelled, cancel_row, cancel_rows, is_wanted, open_orders, in_pair,
}

abbrev pub has : List Uuid → Uuid → Bool
has [] id = false
has (i ∷ ids) id = (id == i) || has ids id

abbrev pub ids_of : List Order → List Uuid
ids_of = map (λ o. o.id)

-- The identifier is the key of the table.
abbrev pub Distinct : List Uuid → Type 0
Distinct [] = Unit
Distinct (i ∷ ids) = All (λ j. (j == i) ≡ false) ids × Distinct ids

abbrev pub close_if : Bool → DateTime → Order → Order
close_if true now o = cancelled now o
close_if false now o = o

-- A row after the cancellation of the listed orders on behalf of a user.
abbrev pub close : List Uuid → String → DateTime → Order → Order
close ids user now o = close_if (has ids o.id && (str_eq o.user_id user && is_open o.status)) now o

-- What a cancellation makes of the rows.
abbrev pub after_cancel : Uuid → String → DateTime → List Order → Option Order → List Order
after_cancel id user now rows none = rows
after_cancel id user now rows (some row) =
    if is_open row.status then cancel_rows id now rows else rows

module _ {A : Type 0} where
  pub map-All :
      {B : Type 0} (f g : A → B) (xs : List A) → All (λ x. f x ≡ g x) xs → map f xs ≡ map g xs
  map-All f g [] h = refl
  map-All f g (x ∷ xs) h = rw (h.0, map-All f g xs h.1)

  pub All-both :
      {P Q R : A → Type 0} (xs : List A) (f : (x : A) → P x → Q x → R x)
      → All P xs
      → All Q xs
      → All R xs
  All-both [] f p q = tt
  All-both (x ∷ xs) f p q = (f x p.0 q.0, All-both xs f p.1 q.1)

  pub All-map :
      {B : Type 0} (f : A → B) (P : B → Type 0) (xs : List A)
      → All P (map f xs)
      → All (λ x. P (f x)) xs
  All-map f P [] h = tt
  All-map f P (x ∷ xs) h = (h.0, All-map f P xs h.1)

abbrev Others : Uuid → List Order → Type 0
Others id rows = All (λ j. (j == id) ≡ false) (ids_of rows)

find_row-Others :
    (id : Uuid) (user : String) (rows : List Order) → Others id rows → find_row id user rows ≡ none
unfolding find_row
find_row-Others id user [] h = refl
find_row-Others id user (o ∷ rows) h = rw (h.0, find_row-Others id user rows h.1)

cancel_rows-Others :
    (id : Uuid) (now : DateTime) (rows : List Order)
    → Others id rows
    → cancel_rows id now rows ≡ rows
unfolding cancel_rows
cancel_rows-Others id now [] h = refl
cancel_rows-Others id now (o ∷ rows) h = rw (h.0, cancel_rows-Others id now rows h.1)

close-Others :
    (id : Uuid) (user : String) (now : DateTime) (rows : List Order)
    → Others id rows
    → map (close (id ∷ []) user now) rows ≡ rows
close-Others id user now [] h = refl
close-Others id user now (o ∷ rows) h = rw (h.0, close-Others id user now rows h.1)

module _ (id : Uuid) (user : String) (now : DateTime) where
  after_cancel-here :
      (o : Order) (rows : List Order)
      → (o.id == id) ≡ true
      → Others id rows
      → after_cancel id user now (o ∷ rows) (find_row id user (o ∷ rows))
        ≡ map (close (id ∷ []) user now) (o ∷ rows)
  unfolding find_row cancel_rows
  after_cancel-here o rows e h = elim (Bool-cases (str_eq o.user_id user)) [
    | inl f ↦ elim (Bool-cases (is_open o.status)) [
      | inl g ↦
          rw (e, f, g, close-Others id user now rows h)
            (ap (λ head. head ∷ map (cancel_row id now) rows) (rw e)
              ∙ ap (λ rest. cancelled now o ∷ rest) (cancel_rows-Others id now rows h))
      | inr g ↦ rw (e, f, g, close-Others id user now rows h)
    ]
    | inr f ↦ rw (e, f, find_row-Others id user rows h, close-Others id user now rows h)
  ]

  after_cancel-later :
      (o : Order) (rows : List Order) (found : Option Order)
      → (o.id == id) ≡ false
      → after_cancel id user now (o ∷ rows) found ≡ o ∷ after_cancel id user now rows found
  unfolding cancel_rows
  after_cancel-later o rows none e = refl
  after_cancel-later o rows (some row) e = rw e (go (is_open row.status))
    where
      go :
          (b : Bool)
          → (if b then o ∷ map (cancel_row id now) rows else o ∷ rows)
            ≡ o ∷ (if b then map (cancel_row id now) rows else rows)
      go true = refl
      go false = refl

  -- A cancellation changes only the open row with its number and its user.
  pub after_cancel_lem :
      (rows : List Order)
      → Distinct (ids_of rows)
      → after_cancel id user now rows (find_row id user rows) ≡ map (close (id ∷ []) user now) rows
  unfolding find_row
  after_cancel_lem [] h = refl
  after_cancel_lem (o ∷ rows) h = elim (Bool-cases (o.id == id)) [
    | inl e ↦ after_cancel-here o rows e (subst (λ i. Others i rows) ((==_iff o.id id).0 e) h.0)
    | inr e ↦
        rw (e, find_row)
          (after_cancel-later o rows (find_row id user rows) e
            ∙ ap (λ rest. o ∷ rest) (after_cancel_lem rows h.1))
  ]

and_false : (a b : Bool) → (a && (b && false)) ≡ false
and_false true true = refl
and_false true false = refl
and_false false b = refl

or_true : (a c d : Bool) → ((a || false) && d) ≡ true → ((a || c) && d) ≡ true
or_true true c d h = h
or_true false c d h = absurd (ground arith)

or_false : (a c d : Bool) → ((a || false) && d) ≡ false → (c && d) ≡ ((a || c) && d)
or_false true true d h = refl
or_false true false d h = sym h
or_false false c d h = refl

pub close-close :
    (id : Uuid) (ids : List Uuid) (user : String) (now : DateTime) (o : Order)
    → close ids user now (close (id ∷ []) user now o) ≡ close (id ∷ ids) user now o
close-close id ids user now o = go (((o.id == id) || false) && d) refl
  where
    d : Bool
    d = str_eq o.user_id user && is_open o.status

    go :
        (b : Bool)
        → (((o.id == id) || false) && d) ≡ b
        → close ids user now (close_if b now o) ≡ close (id ∷ ids) user now o
    go true e =
        ap (λ t. close_if t now (cancelled now o))
          (and_false (has ids o.id) (str_eq o.user_id user))
        ∙ ap (λ t. close_if t now o) (sym (or_true (o.id == id) (has ids o.id) d e))
    go false e = ap (λ t. close_if t now o) (or_false (o.id == id) (has ids o.id) d e)

id-close_if : (b : Bool) (now : DateTime) (o : Order) → (close_if b now o).id ≡ o.id
id-close_if true now o = refl
id-close_if false now o = refl

pub ids_of-close :
    (ids : List Uuid) (user : String) (now : DateTime) (rows : List Order)
    → ids_of (map (close ids user now) rows) ≡ ids_of rows
ids_of-close ids user now rows =
    map-map (λ o. o.id) (close ids user now) rows
    ∙ ap (λ f. map f rows) (fun_ext (λ o. id-close_if _ now o))

sym_false : (a b : ℕ) → (a == b) ≡ false → (b == a) ≡ false
sym_false a b h = ground arith

has_if :
    (b : Bool) (i x : Uuid) (ids : List Uuid)
    → has (if b then i ∷ ids else ids) x ≡ (b && (x == i)) || has ids x
has_if true i x ids = refl
has_if false i x ids = refl

has-open_orders :
    (user : String) (pair_id : Option String) (id : Uuid) (rows : List Order)
    → Others id rows
    → has (open_orders user pair_id rows) id ≡ false
unfolding open_orders
has-open_orders user pair_id id [] h = refl
has-open_orders user pair_id id (o ∷ rows) h =
    has_if (is_wanted user pair_id o) o.id id (open_orders user pair_id rows)
    ∙ neither (is_wanted user pair_id o) (id == o.id) (has (open_orders user pair_id rows) id)
        (sym_false o.id id h.0) (has-open_orders user pair_id id rows h.1)
  where
    neither : (b t r : Bool) → t ≡ false → r ≡ false → ((b && t) || r) ≡ false
    neither true t r p q = rw (p, q)
    neither false t r p q = q

here : (b t r : Bool) → t ≡ true → r ≡ false → ((b && t) || r) ≡ b
here true t r p q = rw p
here false t r p q = q

later : (b t r : Bool) → t ≡ false → ((b && t) || r) ≡ r
later true t r p = rw p
later false t r p = refl

-- A number is listed exactly if its row is wanted.
open_orders-All :
    (user : String) (pair_id : Option String) (rows : List Order)
    → Distinct (ids_of rows)
    → All (λ o. has (open_orders user pair_id rows) o.id ≡ is_wanted user pair_id o) rows
unfolding open_orders
open_orders-All user pair_id [] h = tt
open_orders-All user pair_id (o ∷ rows) h = (
  has_if b o.id o.id rest
      ∙ here b (o.id == o.id) (has rest o.id) ((==_iff o.id o.id).1 refl)
          (has-open_orders user pair_id o.id rows h.0),
  All-both rows
      (λ x new eq. has_if b o.id x.id rest ∙ later b (x.id == o.id) (has rest x.id) new ∙ eq)
      (All-map (λ x. x.id) (λ j. (j == o.id) ≡ false) rows h.0)
      (open_orders-All user pair_id rows h.1),
)
  where
    b : Bool
    b = is_wanted user pair_id o

    rest : List Uuid
    rest = open_orders user pair_id rows

-- The rows after the cancellation of every open order of a user, in one pair or in all.
abbrev pub close_wanted : String → Option String → DateTime → Order → Order
close_wanted user pair_id now o = close_if (is_wanted user pair_id o) now o

absorb : (u p q : Bool) → ((u && (p && q)) && (u && q)) ≡ (u && (p && q))
absorb true true true = refl
absorb true true false = refl
absorb true false q = refl
absorb false p q = refl

pub close-open_orders :
    (user : String) (pair_id : Option String) (now : DateTime) (rows : List Order)
    → Distinct (ids_of rows)
    → map (close (open_orders user pair_id rows) user now) rows
      ≡ map (close_wanted user pair_id now) rows
close-open_orders user pair_id now rows h =
    map-All (close (open_orders user pair_id rows) user now) (close_wanted user pair_id now) rows (
      All-both rows (λ o e t. same o e) (open_orders-All user pair_id rows h)
        (open_orders-All user pair_id rows h))
  where
    same :
        (o : Order)
        → has (open_orders user pair_id rows) o.id ≡ is_wanted user pair_id o
        → close (open_orders user pair_id rows) user now o ≡ close_wanted user pair_id now o
    same o e =
        ap (λ t. close_if t now o)
          (ap (λ t. t && (str_eq o.user_id user && is_open o.status)) e
            ∙ absorb (str_eq o.user_id user) (in_pair pair_id o.pair_id) (is_open o.status))
