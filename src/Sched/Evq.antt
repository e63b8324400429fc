-- ===== src/Sched/Evq.antt =====
-- src/sched_evq.c: the event queue, a binary min-heap of tasks by the tick they are due at, their
-- priority and their number. The heap is an array of `cap` entries, of which the first `count` are in
-- use; an access beyond it, or a loop that does not end within its fuel, is `none`. The lock is held
-- through each operation that takes it.
pub mod Key
pub mod Order
pub mod Up
pub mod Down
pub mod Holds
pub mod Pop
mod Tests
use ggmk.Base.{
  ℕ, zero, suc, ◌+◌, ◌-◌, ◌*◌, ◌/◌, ◌%◌, ◌^◌, Bool, true, false, Option, none, some, List, [],
  u32_mod, add32, ltb, leb, if◌then◌else◌, get_elem?, set, ◌==◌, bit_or, ◌>>=◌, replicate, length,
}
use ggmk.Rc.{Rc, ok, minus_one}
use ggmk.Task.{Task, priority}

-- `gmk_evq_entry_t`
pub record Entry : Type 0 where
  pub key : ℕ
  pub task : Task

-- `gmk_evq_t` without its lock
pub record Evq : Type 0 where
  pub heap : List Entry
  pub count : ℕ
  pub cap : ℕ
  pub next_seq : ℕ

-- an entry of zeroed memory
abbrev pub blank : Entry
blank = record {
  key = 0;
  task = record {
    type = 0;
    flags = 0;
    tenant = 0;
    channel = 0;
    seq = 0;
    payload_ptr = 0;
    payload_len = 0;
    yield_count = 0;
    pad = 0;
    meta0 = 0;
    meta1 = 0;
  };
}

-- `evq_key`
unfoldable pub evq_key : Task → ℕ → ℕ
unfolding priority
evq_key t seq =
    let tick = t.meta0 % u32_mod in
    let prio = priority t.flags in bit_or (bit_or (tick * 2 ^ 32) (prio * 2 ^ 16)) seq

abbrev pub parent : ℕ → ℕ
parent idx = (idx - 1) / 2

-- `heap[i].key < heap[j].key`
pub key_lt : List Entry → ℕ → ℕ → Option Bool
key_lt heap i j = do a ← get_elem? heap i; b ← get_elem? heap j; some (ltb a.key b.key)

-- the exchange of two entries by way of `tmp`
pub exchange : List Entry → ℕ → ℕ → Option (List Entry)
exchange heap idx other = do
  tmp ← get_elem? heap idx
  b ← get_elem? heap other
  some (set (set heap idx b) other tmp)

-- the loop of `heap_sift_up`
pub sift_up_loop : ℕ → List Entry → ℕ → Option (List Entry)
sift_up_loop zero heap idx = none
sift_up_loop (suc fuel) heap idx =
    let go_on = exchange heap idx (parent idx) >>= λ h. sift_up_loop fuel h (parent idx) in
    let round = key_lt heap idx (parent idx) >>= λ lower. if lower then go_on else some heap in
    if ltb 0 idx then round else some heap

-- `heap_sift_up`
unfoldable pub heap_sift_up : List Entry → ℕ → Option (List Entry)
unfolding sift_up_loop key_lt exchange
heap_sift_up heap idx = sift_up_loop (idx + 1) heap idx

-- the choice between `smallest` and a child
pub smaller : List Entry → ℕ → ℕ → ℕ → Option ℕ
unfolding key_lt
smaller heap count child smallest =
    let compared =
      key_lt heap child smallest >>= λ lower. some (if lower then child else smallest) in
    if ltb child count then compared else some smallest

-- the loop of `heap_sift_down`
pub sift_down_loop : ℕ → List Entry → ℕ → ℕ → Option (List Entry)
sift_down_loop zero heap count idx = none
sift_down_loop (suc fuel) heap count idx =
    let chosen = smaller heap count ((2 * idx + 1) % u32_mod) idx >>= λ smallest.
    smaller heap count ((2 * idx + 2) % u32_mod) smallest in
    chosen >>= λ smallest.
    (let go_on = exchange heap idx smallest >>= λ h. sift_down_loop fuel h count smallest in
      if smallest == idx then some heap else go_on)

-- `heap_sift_down`
unfoldable pub heap_sift_down : List Entry → ℕ → ℕ → Option (List Entry)
unfolding sift_down_loop smaller exchange
heap_sift_down heap count idx = sift_down_loop (count + 1) heap count idx

-- `gmk_evq_init`; `calloc_works` says whether `gmk_hal_calloc` returns memory, and `none` is -1.
unfoldable pub init : ℕ → Bool → Option Evq
init cap calloc_works =
    if cap == 0
    then none
    else if calloc_works
    then some (record { heap = replicate cap blank; count = 0; cap = cap; next_seq = 0 })
    else none

-- `gmk_evq_destroy`: the freed heap cannot be used any more.
unfoldable pub destroy : Evq → Evq
destroy evq = record evq { heap = [] }

-- the write of the new entry
abbrev pub fresh : Task → ℕ → Entry
fresh task seq = record { key = evq_key task seq; task = record task { seq = seq } }

-- `gmk_evq_push`
unfoldable pub push : Evq → Task → Option (Rc × Evq)
unfolding heap_sift_up evq_key
push evq task =
    let seq = evq.next_seq in
    let idx = evq.count in
    let stored =
      get_elem? evq.heap idx >>= λ old. heap_sift_up (set evq.heap idx (fresh task seq)) idx in
    let pushed = stored >>= λ h.
    some (ok, record evq { heap = h; count = add32 idx 1; next_seq = add32 seq 1 }) in
    if leb evq.cap evq.count then some (minus_one, evq) else pushed

-- `(uint32_t)(key >> 32)`: what is left of the 64 bits is not cut by the cast.
abbrev pub tick_of : ℕ → ℕ
tick_of key = key / 2 ^ 32

-- the removal of the root by `gmk_evq_pop_due`, with `count` entries left
pub remove_root : List Entry → ℕ → Option (List Entry)
unfolding heap_sift_down
remove_root heap count =
    let moved = get_elem? heap count >>= λ last. heap_sift_down (set heap 0 last) count 0 in
    if ltb 0 count then moved else some heap

-- `gmk_evq_pop_due`; the inner option is what is copied to `*task`.
unfoldable pub pop_due : Evq → ℕ → Option (Rc × Option Task × Evq)
unfolding remove_root
pop_due evq current_tick =
    let found = get_elem? evq.heap 0 >>= λ root.
    (let taken = remove_root evq.heap (evq.count - 1) >>= λ h.
    some (ok, some root.task, record evq { heap = h; count = evq.count - 1 }) in
      if ltb current_tick (tick_of root.key) then some (minus_one, none, evq) else taken) in
    if evq.count == 0 then some (minus_one, none, evq) else found
