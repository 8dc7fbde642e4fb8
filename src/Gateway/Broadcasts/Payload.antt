-- ===== src/Gateway/Broadcasts/Payload.antt =====
-- The payload "key\nvalue" of a message of `cache_updates`, taken apart again.
use Prim.Native.String.{◌++◌ as append}
use text.Mathlib.TextLemmas.{nil-append, cons-append}
use serverless_matching_engi.Prelude.{
  ℕ, ◌+◌, String, some, ◌≡◌, refl, ap, ◌∙◌, arith, if◌then◌else◌, Bool-cases, inl, inr,
}
use serverless_matching_engi.Gateway.Broadcasts.{is_newline, split_line, payload_of}

-- How many line ends the text has.
abbrev pub newlines : String → ℕ
newlines String.[] = 0
newlines (String.◌∷◌ c s) = (if is_newline c then 1 else 0) + newlines s

append-newline : (value : String) → append "\n" value ≡ String.◌∷◌ "\n" value
append-newline value = cons-append "\n" "" value ∙ ap (String.◌∷◌ "\n") (nil-append value)

split_line-newline : (value : String) → split_line (String.◌∷◌ "\n" value) ≡ some ("", value)
unfolding split_line
split_line-newline value = refl

pub split_line-payload_of :
    (key value : String) → newlines key ≡ 0 → split_line (payload_of key value) ≡ some (key, value)
unfolding split_line
split_line-payload_of String.[] value h =
    rw (nil-append (append "\n" value), append-newline value) (split_line-newline value)
split_line-payload_of (String.◌∷◌ c key) value h = elim (Bool-cases (is_newline c)) [
  | inl e ↦ absurd (ground arith)
  | inr e ↦ rw (
    cons-append c key (append "\n" value),
    e,
    split_line-payload_of key value (ground arith),
    split_line,
  )
]
