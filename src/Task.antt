-- ===== src/Task.antt =====
-- `gmk_task_t` of include/ggmk/types.h, and its priority.
use ggmk.Base.{ℕ, bit_and}

pub record Task : Type 0 where
  pub type : ℕ
  pub flags : ℕ
  pub tenant : ℕ
  pub channel : ℕ
  pub seq : ℕ
  pub payload_ptr : ℕ
  pub payload_len : ℕ
  pub yield_count : ℕ
  pub pad : ℕ
  pub meta0 : ℕ
  pub meta1 : ℕ

-- `GMK_PRIORITY(flags)`
unfoldable pub priority : ℕ → ℕ
priority flags = bit_and flags 0x0003

abbrev pub priority_count : ℕ
priority_count = 4

abbrev pub prio_low : ℕ
prio_low = 3
