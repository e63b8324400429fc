-- ===== src/Rc.antt =====
-- The `int` results of include/ggmk/error.h: `GMK_OK`, `GMK_RETRY` and `GMK_FAIL(code)`. The -1 of
-- the queues is `GMK_FAIL(1)`.
use ggmk.Base.{ℕ, Bool, true, false}

pub data Rc : Type 0 where
  ok retry : Rc
  fail : ℕ → Rc

-- the test `rc == 0`
abbrev pub is_ok : Rc → Bool
is_ok ok = true
is_ok retry = false
is_ok (fail n) = false

abbrev pub minus_one : Rc
minus_one = fail 1

abbrev pub err_yield_overflow : ℕ
err_yield_overflow = 9

abbrev pub err_yield_limit : ℕ
err_yield_limit = 10
