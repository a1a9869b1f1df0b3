-- ===== src/Indexer/Syncer/Window.antt =====
-- The retained window of a head.
use ethindexer.Common.{ℕ, ◌+◌, ◌-◌, ◌≤◌, ◌<◌, ◌≡◌, ◌⊎◌, arith}
use ethindexer.Domain.{uint64_size, max_block_window}
use ethindexer.Indexer.Syncer.{window_start}

-- For a head that is a uint64 and a window of 1 to 50 blocks: the range from `windowStart` to the
-- head holds as many blocks as the window, or starts at block 0 and holds fewer.
pub window_start_exact :
    (head window : ℕ)
    → head < uint64_size
    → 1 ≤ window
    → window ≤ max_block_window
    → (window_start head window ≤ head)
      × (head - window_start head window + 1 ≤ window)
      × ((head + 1 ≡ window_start head window + window)
          ⊎ ((window_start head window ≡ 0) × (head + 1 < window)))
unfolding window_start
window_start_exact head window small positive bounded = ground arith
