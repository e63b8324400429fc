-- ===== src/Spsc/Threads/Fifo.antt =====
-- What one producer and one consumer of src/ring_spsc.c see, under every interleaving.
use mathlib.Core.Path.{subst}
use ggmk.Base.{ℕ, ◌<◌, ◌≡◌, ◌≢◌, some, List, [], ◌++◌, map, arith, length, sub32, bit_and}
use ggmk.Spsc.{Ring}
use ggmk.Spsc.Holds.{Holds}
use ggmk.Spsc.Slots.{counters-ne}
use ggmk.Spsc.Threads.{Producer, Consumer, System, Reach}
use ggmk.Spsc.Threads.Inv.{ProducerOk, ConsumerOk, Reach-Inv}

module _ {ℓ} {A : Type ℓ} {r : Ring A} {s : System A} where
  -- From an empty ring, in every state that the two threads reach, the elements pushed are the ones
  -- popped, in that order, followed by those that the ring holds: none is lost, doubled or
  -- reordered.
  pub exchange_fifo :
      Holds r []
      → Reach r s
      → (xs : List A) × (map some s.sent ≡ s.received ++ map some xs) × Holds s.ring xs
  exchange_fifo h reach = let inv = Reach-Inv h reach in (inv.contents, inv.fifo, inv.holds)

  -- When the producer is about to copy into a slot (it has seen room) while the consumer is about to
  -- copy out of one (it has seen an element), the slots differ: the copies never race.
  pub slots_disjoint :
      {x : A} {tail seen_head head seen_tail : ℕ}
      → Holds r []
      → Reach r s
      → s.producer ≡ Producer.compare x tail seen_head
      → sub32 tail seen_head < s.ring.cap
      → s.consumer ≡ Consumer.compare head seen_tail
      → head ≢ seen_tail
      → bit_and tail s.ring.mask ≢ bit_and head s.ring.mask
  slots_disjoint h reach p room c more =
      let inv = Reach-Inv h reach in
      let hs = inv.holds in
      let (_, tail_now, seen) = subst (ProducerOk s.ring inv.contents) p inv.producing in
      let (_, head_now, word, left) = subst (ConsumerOk s.ring.head inv.contents) c inv.consuming in
      let free : length inv.contents < s.ring.cap = omega arith in
      let filled : 0 < length inv.contents = omega (arith, hs.head_word) in
      rw (tail_now, head_now) (counters-ne hs filled free)
