-- ===== src/Cache/Memory.antt =====
-- A database in memory, at which the tests instantiate the commands of Valkey: the hashes' entries,
-- the newest first, the members of the sorted sets from the lowest score, and the texts.
use serverless_matching_engi.Prelude.{
  ℕ, String, Bool, true, false, ◌&&◌, Option, none, some, List, [], ◌∷◌, if◌then◌else◌, str_eq,
  take, drop,
}
use serverless_matching_engi.Prelude.Int.{ℤ, leb_ℤ}
use serverless_matching_engi.Cache.Valkey.{Valkey, Bound}

pub record Memory : Type 0 where
  pub entries : List (String × String × String)
  pub members : List (String × ℤ × String)
  pub texts : List (String × String)

abbrev pub find_entry : String → String → List (String × String × String) → Option String
find_entry key field [] = none
find_entry key field ((k, g, text) ∷ rest) =
    if str_eq k key && str_eq g field then some text else find_entry key field rest

abbrev find_text : String → List (String × String) → Option String
find_text key [] = none
find_text key ((k, text) ∷ rest) = if str_eq k key then some text else find_text key rest

abbrev above : Bound → ℤ → Bool
above Bound.minus_inf s = true
above Bound.plus_inf s = false
above (Bound.at b) s = leb_ℤ b s

abbrev below : Bound → ℤ → Bool
below Bound.minus_inf s = false
below Bound.plus_inf s = true
below (Bound.at b) s = leb_ℤ s b

abbrev range : String → Bound → Bound → List (String × ℤ × String) → List String
range key low high [] = []
range key low high ((k, score, member) ∷ rest) =
    let found = range key low high rest in
    if str_eq k key && (above low score && below high score) then member ∷ found else found

abbrev limited : Option (ℕ × ℕ) → List String → List String
limited none xs = xs
limited (some (offset, count)) xs = take count (drop offset xs)

abbrev pub put_all :
    String
    → List (String × String)
    → List (String × String × String)
    → List (String × String × String)
put_all key [] entries = entries
put_all key ((field, text) ∷ rest) entries = (key, field, text) ∷ put_all key rest entries

abbrev pub without : String → List (String × String × String) → List (String × String × String)
without key [] = []
without key ((k, g, text) ∷ rest) =
    let kept = without key rest in if str_eq k key then kept else (k, g, text) ∷ kept

abbrev removed : String → String → List (String × ℤ × String) → List (String × ℤ × String)
removed key member [] = []
removed key member ((k, score, x) ∷ rest) =
    let kept = removed key member rest in
    if str_eq k key && str_eq x member then kept else (k, score, x) ∷ kept

-- Counters and expiry are not kept.
abbrev pub memory : Valkey
memory = record {
  Db = Memory;
  get = λ key db. find_text key db.texts;
  hget = λ key field db. find_entry key field db.entries;
  zrangebyscore = λ key low high limit db. limited limit (range key low high db.members);
  hincrby = λ key field n db. db;
  hset = λ key fields db. record db { entries = put_all key fields db.entries };
  zadd = λ key score member db. record db { members = (key, score, member) ∷ db.members };
  zrem = λ key member db. record db { members = removed key member db.members };
  del = λ key db. record db { entries = without key db.entries };
  expire = λ key seconds db. db;
  incr = λ key db. db;
}
