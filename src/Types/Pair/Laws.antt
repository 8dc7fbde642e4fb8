-- ===== src/Types/Pair/Laws.antt =====
-- What parse_pair_id of crates/shared/src/types.rs accepts.
use Prim.Native.Char.{Char}
use Prim.Native.String.{◌++◌ as append}
use text.Mathlib.TextLemmas.{nil-append, cons-append}
use serverless_matching_engi.Prelude.{
  ℕ, ◌+◌, String, none, some, List, [], ◌∷◌, ◌≡◌, ◌≢◌, refl, ap, ◌∙◌, arith, length, if◌then◌else◌,
  Bool-cases, inl, inr,
}
use serverless_matching_engi.Types.Pair.{is_dash, push_front, split_dash, two_pieces, parse_pair_id}

-- How many dashes the text has.
abbrev pub dashes : String → ℕ
dashes String.[] = 0
dashes (String.◌∷◌ c s) = (if is_dash c then 1 else 0) + dashes s

length-push_front :
    (c : Char) (x : String) (xs : List String) → length (push_front c (x ∷ xs)) ≡ length (x ∷ xs)
length-push_front c x xs = refl

-- There is one piece more than there are dashes.
length-split_dash : (s : String) → length (split_dash s) ≡ dashes s + 1
unfolding split_dash
length-split_dash String.[] = refl
length-split_dash (String.◌∷◌ c s) = elim (Bool-cases (is_dash c)) [
  | inl e ↦ rw e (omega (arith, length-split_dash s))
  | inr e ↦ rw e (pieces (split_dash s) (length-split_dash s))
]
  where
    pieces :
        (xs : List String) → length xs ≡ dashes s + 1 → length (push_front c xs) ≡ 0 + dashes s + 1
    pieces [] h = absurd (omega (arith, h))
    pieces (x ∷ xs) h = omega (arith, h)

split_dash-whole : (s : String) → dashes s ≡ 0 → split_dash s ≡ s ∷ []
unfolding split_dash
split_dash-whole String.[] h = refl
split_dash-whole (String.◌∷◌ c s) h = elim (Bool-cases (is_dash c)) [
  | inl e ↦ absurd (ground arith)
  | inr e ↦ rw (e, split_dash-whole s (ground arith))
]

append-dash : (quote : String) → append "-" quote ≡ String.◌∷◌ "-" quote
append-dash quote = cons-append "-" "" quote ∙ ap (String.◌∷◌ "-") (nil-append quote)

split_dash-dash : (quote : String) → split_dash (String.◌∷◌ "-" quote) ≡ "" ∷ split_dash quote
unfolding split_dash
split_dash-dash quote = refl

split_dash-join :
    (base quote : String)
    → dashes base ≡ 0
    → split_dash (append base (append "-" quote)) ≡ base ∷ split_dash quote
unfolding split_dash
split_dash-join String.[] quote h =
    rw (nil-append (append "-" quote), append-dash quote) (split_dash-dash quote)
split_dash-join (String.◌∷◌ c base) quote h = elim (Bool-cases (is_dash c)) [
  | inl e ↦ absurd (ground arith)
  | inr e ↦ rw (
    cons-append c base (append "-" quote),
    e,
    split_dash-join base quote (ground arith),
    split_dash,
  )
]

two_pieces-none : (xs : List String) → length xs ≢ 2 → two_pieces xs ≡ none
two_pieces-none [] h = refl
two_pieces-none (x ∷ []) h = refl
two_pieces-none (x ∷ y ∷ []) h = absurd (h refl)
two_pieces-none (x ∷ y ∷ z ∷ rest) h = refl

-- A base and a quote asset without dashes, joined by a dash, are parsed back; a text with no dash
-- or with more than one is refused.
pub parse_pair_id_lem :
    (base quote pair_id : String)
    → (dashes base ≡ 0
        → dashes quote ≡ 0
        → parse_pair_id (append base (append "-" quote)) ≡ some (base, quote))
      × (dashes pair_id ≢ 1 → parse_pair_id pair_id ≡ none)
unfolding parse_pair_id
parse_pair_id_lem base quote pair_id = (
  (λ b q. rw (split_dash-join base quote b, split_dash-whole quote q)),
  λ h.
      two_pieces-none (split_dash pair_id)
        (λ two. h (omega (arith, two, length-split_dash pair_id))),
)
