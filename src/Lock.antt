-- ===== src/Lock.antt =====
-- crates/shared/src/lock.rs: the lock of a pair, with its fence counter.
--
-- The keys `book:{pair}:lock` and `book:{pair}:fence` of one pair are the state. What other workers
-- do during a wait, and the expiry of the lock, is a function of the attempt. Nothing comes between
-- SET and INCR of the attempt that succeeds. The reply to that INCR is a parameter; the pool and SET
-- are taken to answer, as the source returns their errors.
pub mod Fences
pub mod Attempts
mod Tests
use serverless_matching_engi.Prelude.{
  ℕ, zero, suc, ◌+◌, String, Bool, true, false, Option, none, some, str_eq, if◌then◌else◌,
}

pub record Keys : Type 0 where
  pub holder : Option String
  pub fence : ℕ

pub record LockGuard : Type 0 where
  pub worker_id : String
  pub fence_token : ℕ

abbrev pub max_retries : ℕ
max_retries = 20

-- SET key worker_id NX EX: the key is set only if there is none.
unfoldable pub set_nx : String → Keys → Bool × Keys
set_nx worker_id s = elim s.holder [
  | none ↦ (true, record s { holder = some worker_id })
  | some other ↦ (false, s)
]

-- INCR of the fence.
unfoldable pub incr_fence : Keys → ℕ × Keys
incr_fence s = (s.fence + 1, record s { fence = s.fence + 1 })

-- The reply to INCR: the counter's new value, or an error, with or without the counter raised.
pub data IncrReply : Type 0 where
  answered : IncrReply
  lost : (counted : Bool) → IncrReply

-- `unwrap_or(1)` of the reply, and what is left of the keys.
unfoldable pub next_fence : IncrReply → Keys → ℕ × Keys
next_fence IncrReply.answered s = incr_fence s
next_fence (IncrReply.lost counted) s = (1, if counted then (incr_fence s).1 else s)

unfoldable pub take_guard : IncrReply → String → Keys → Option LockGuard × Keys
take_guard reply worker_id s =
    let (fence, s') = next_fence reply s in
    (some (record { worker_id = worker_id; fence_token = fence }), s')

-- The attempts that are left, and what happens in the wait before each of the next ones.
unfoldable pub attempts :
    ℕ → IncrReply → (ℕ → Keys → Keys) → String → Keys → Option LockGuard × Keys
attempts zero reply meanwhile worker_id s = (none, s)
attempts (suc n) reply meanwhile worker_id s =
    let (set, s') = set_nx worker_id s in
    let later = attempts n reply meanwhile worker_id (meanwhile n s') in
    if set then take_guard reply worker_id s' else later

unfoldable pub acquire_lock :
    IncrReply → (ℕ → Keys → Keys) → String → Keys → Option LockGuard × Keys
acquire_lock = attempts max_retries

-- The script compares the value with the worker id; the fence is not used.
unfoldable pub release_lock : String → ℕ → Keys → Keys
release_lock worker_id fence s = elim s.holder [
  | none ↦ s
  | some val ↦ if str_eq val worker_id then record s { holder = none } else s
]

unfoldable pub release : LockGuard → Keys → Keys
release g s = release_lock g.worker_id g.fence_token s

unfoldable pub is_locked : Keys → Bool
is_locked s = elim s.holder [ none ↦ false | some val ↦ true ]

unfoldable pub current_fence : Keys → ℕ
current_fence s = s.fence

-- The key is gone after its five seconds.
unfoldable pub expire : Keys → Keys
expire s = record s { holder = none }
