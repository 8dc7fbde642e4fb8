-- ===== src/Lock/Fences.antt =====
-- What a guard tells, and whose lock a release takes away.
use serverless_matching_engi.Prelude.{
  ℕ, ◌≤◌, ◌<◌, String, Option, none, some, ◌≡◌, ◌≢◌, eq_iff, arith,
}
use serverless_matching_engi.Lock.{
  Keys, LockGuard, IncrReply, next_fence, set_nx, incr_fence, take_guard, release_lock, release,
  expire,
}

-- The fence never goes down while others act.
abbrev pub IsMonotone : (ℕ → Keys → Keys) → Type 0
IsMonotone meanwhile = (n : ℕ) (s : Keys) → s.fence ≤ (meanwhile n s).fence

-- By the outcome and the reply to INCR: what an acquisition from `s` comes to.
abbrev pub Acquired : IncrReply → String → Keys → Option LockGuard × Keys → Type 0
Acquired reply worker_id s (none, s') = s.fence ≤ s'.fence
Acquired IncrReply.answered worker_id s (some g, s') =
    (s'.holder ≡ some worker_id)
    × (g.worker_id ≡ worker_id)
    × (g.fence_token ≡ s'.fence)
    × (s.fence < g.fence_token)
Acquired (IncrReply.lost counted) worker_id s (some g, s') =
    (s'.holder ≡ some worker_id)
    × (g.worker_id ≡ worker_id)
    × (g.fence_token ≡ 1)
    × (s.fence ≤ s'.fence)

-- A lock that expired and was taken by another worker survives the release of the first guard; but
-- if it was taken again under the same worker id, the stale guard, whose fence is lower, releases
-- it.
pub release_stale :
    (g : LockGuard) (other : String) (s : Keys)
    → let taken = (take_guard IncrReply.answered other (set_nx other (expire s)).1).1 in
      (g.worker_id ≢ other → release g taken ≡ taken)
      × (g.worker_id ≡ other → (release g taken).holder ≡ none)
unfolding take_guard next_fence set_nx incr_fence expire release release_lock
release_stale g other s =
    ((λ h. ground (arith, eq_iff other g.worker_id)), λ h. ground (arith, eq_iff other g.worker_id))
