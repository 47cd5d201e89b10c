-- ===== src/Core/Time/Overlap.antt =====
-- time.ts: what it means for windows to overlap.
use nestai.Prelude.{ℕ, ◌≤◌, ◌<◌, ◌≡◌, ◌↔◌, true, max, arith}
use nestai.Prelude.Results.{ok}
use nestai.Core.Time.{date, windows_overlap}

-- `windowsOverlap` of valid, non-empty windows answers true exactly when some instant lies in both
-- of them, the ends excluded: back-to-back windows do not overlap.
pub windows_overlap_iff :
    (a b c d : ℕ)
    → a < b
    → c < d
    → (windows_overlap (date a) (date b) (date c) (date d) ≡ ok true)
      ↔ ((t : ℕ) × (a ≤ t) × (t < b) × (c ≤ t) × (t < d))
unfolding windows_overlap
windows_overlap_iff a b c d p q =
    (λ e. (max a c, ground arith, ground arith, ground arith, ground arith), λ h. ground arith)
