-- ===== src/Lock/Attempts.antt =====
-- When acquire_lock of crates/shared/src/lock.rs succeeds.
use serverless_matching_engi.Prelude.{refl, ℕ, zero, suc, String, none, ◌≡◌, ◌≢◌, ◌↔◌, arith}
use serverless_matching_engi.Lock.{
  Keys, IncrReply, next_fence, set_nx, incr_fence, take_guard, attempts, acquire_lock, max_retries,
}

-- Each of the attempts that are left finds the lock taken.
abbrev pub AllBlocked : ℕ → (ℕ → Keys → Keys) → Keys → Type 0
AllBlocked zero meanwhile s = Unit
AllBlocked (suc n) meanwhile s = (s.holder ≢ none) × AllBlocked n meanwhile (meanwhile n s)

attempts_iff :
    (n : ℕ) (reply : IncrReply) (meanwhile : ℕ → Keys → Keys) (worker_id : String) (s : Keys)
    → ((attempts n reply meanwhile worker_id s).0 ≡ none) ↔ AllBlocked n meanwhile s
unfolding attempts set_nx take_guard next_fence incr_fence
attempts_iff zero reply meanwhile worker_id s = (λ h. tt, λ h. refl)
attempts_iff (suc n) reply meanwhile worker_id s =
    ground (arith, attempts_iff n reply meanwhile worker_id (meanwhile n s))

-- Whatever happens in the waits and to the reply of INCR, an acquisition fails exactly if each of its 20 attempts finds the
-- lock taken: if the lock is free at one of them, it is acquired.
pub acquire_lock_iff :
    (reply : IncrReply) (meanwhile : ℕ → Keys → Keys) (worker_id : String) (s : Keys)
    → ((acquire_lock reply meanwhile worker_id s).0 ≡ none) ↔ AllBlocked max_retries meanwhile s
unfolding acquire_lock
acquire_lock_iff reply meanwhile worker_id s = attempts_iff max_retries reply meanwhile worker_id s
