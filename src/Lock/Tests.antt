-- ===== src/Lock/Tests.antt =====
-- Two workers and a lock that expires.
use serverless_matching_engi.Prelude.{ℕ, String, true, none, some, ◌≡◌, ◌↔◌, refl}
use serverless_matching_engi.Lock.{
  Keys, LockGuard, IncrReply, next_fence, set_nx, incr_fence, take_guard, attempts, acquire_lock,
  max_retries,
}
use serverless_matching_engi.Lock.Attempts.{AllBlocked, acquire_lock_iff}

abbrev held : Keys
held = record { holder = some "worker-2"; fence = 7 }

-- The other worker's lock expires in the first wait.
abbrev meanwhile : ℕ → Keys → Keys
meanwhile n s = record { holder = none; fence = s.fence }

takes_the_eighth : acquire_lock IncrReply.answered meanwhile "worker-1" held ≡ (
  some (record { worker_id = "worker-1"; fence_token = 8 }),
  record { holder = some "worker-1"; fence = 8 },
)
unfolding acquire_lock attempts set_nx take_guard next_fence incr_fence
takes_the_eighth = refl

-- The reply is lost: the guard's fence is below those given before.
takes_the_first : acquire_lock (IncrReply.lost true) meanwhile "worker-1" held ≡ (
  some (record { worker_id = "worker-1"; fence_token = 1 }),
  record { holder = some "worker-1"; fence = 8 },
)
unfolding acquire_lock attempts set_nx take_guard next_fence incr_fence
takes_the_first = refl

abbrev worker : String
worker = "worker-2"

abbrev guard : LockGuard
guard = record { worker_id = worker; fence_token = 7 }

acquire_lock_iff_example :
    ((acquire_lock IncrReply.answered meanwhile worker held).0 ≡ none)
    ↔ AllBlocked max_retries meanwhile held
acquire_lock_iff_example = acquire_lock_iff IncrReply.answered meanwhile worker held
