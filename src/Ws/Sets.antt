-- ===== src/Ws/Sets.antt =====
-- The sets that crates/ws-handler/src/main.rs keeps in Valkey: a family of sets is the list of its
-- pairs of a key and a member. Expiry is not modelled.
use serverless_matching_engi.Prelude.{
  String, Bool, false, not, ◌&&◌, ◌||◌, List, [], ◌∷◌, ◌≡◌, refl, str_eq, eq_iff, if◌then◌else◌,
  arith,
}

abbrev pub Family : Type 0
Family = List (String × String)

unfoldable pub has : String → String → Family → Bool
has key member [] = false
has key member ((k, m) ∷ rest) = (str_eq k key && str_eq m member) || has key member rest

unfoldable pub sadd : String → String → Family → Family
sadd key member s = if has key member s then s else (key, member) ∷ s

unfoldable pub srem : String → String → Family → Family
srem key member [] = []
srem key member ((k, m) ∷ rest) =
    let kept = srem key member rest in
    if str_eq k key && str_eq m member then kept else (k, m) ∷ kept

unfoldable pub del : String → Family → Family
del key [] = []
del key ((k, m) ∷ rest) = let kept = del key rest in if str_eq k key then kept else (k, m) ∷ kept

unfoldable pub smembers : String → Family → List String
smembers key [] = []
smembers key ((k, m) ∷ rest) =
    let found = smembers key rest in if str_eq k key then m ∷ found else found

unfoldable pub mem : String → List String → Bool
mem x [] = false
mem x (y ∷ ys) = str_eq y x || mem x ys

pub has-sadd :
    (key member k m : String) (s : Family)
    → has key member (sadd k m s) ≡ ((str_eq k key && str_eq m member) || has key member s)
unfolding sadd has
has-sadd key member k m s = ground (arith, eq_iff k key, eq_iff m member)

pub has-srem :
    (key member k m : String) (s : Family)
    → has key member (srem k m s) ≡ (not (str_eq k key && str_eq m member) && has key member s)
unfolding srem has
has-srem key member k m [] = ground arith
has-srem key member k m ((a, b) ∷ rest) = ground (
  arith,
  has-srem key member k m rest,
  eq_iff k key,
  eq_iff m member,
  eq_iff a key,
  eq_iff b member,
  eq_iff a k,
  eq_iff b m,
)

pub has-del :
    (key member k : String) (s : Family)
    → has key member (del k s) ≡ (not (str_eq k key) && has key member s)
unfolding del has
has-del key member k [] = ground arith
has-del key member k ((a, b) ∷ rest) =
    ground (arith, has-del key member k rest, eq_iff k key, eq_iff a key, eq_iff a k)

pub mem-smembers :
    (key member : String) (s : Family) → mem member (smembers key s) ≡ has key member s
unfolding mem smembers has
mem-smembers key member [] = refl
mem-smembers key member ((a, b) ∷ rest) = ground (arith, mem-smembers key member rest, eq_iff a key)
