-- ===== src/Spsc/Threads.antt =====
-- `gmk_ring_spsc_push` and `gmk_ring_spsc_pop` of src/ring_spsc.c run by two threads: each load,
-- copy and store is a step, and the steps of the two threads interleave in any order. The accesses
-- are taken as sequentially consistent, which the acquire and release orders of the source give for
-- one producer and one consumer.
pub mod Inv
pub mod Fifo
use ggmk.Base.{
  ℕ, Option, none, some, List, [], ◌∷◌, ◌++◌, bit_and, add32, sub32, leb, ◌==◌, if◌then◌else◌,
  get_elem?, set,
}
use ggmk.Rc.{Rc, ok, minus_one}
use ggmk.Spsc.{Ring}

module _ {ℓ} where
  -- Where the producer is in `gmk_ring_spsc_push`, with its locals.
  pub data Producer (A : Type ℓ) : Type ℓ where
    start : Producer A
    load_head : A → ℕ → Producer A
    compare : A → ℕ → ℕ → Producer A
    publish : A → ℕ → Producer A
    returned : Rc → Producer A

  -- Where the consumer is in `gmk_ring_spsc_pop`, with its locals.
  pub data Consumer (A : Type ℓ) : Type ℓ where
    start : Consumer A
    load_tail : ℕ → Consumer A
    compare : ℕ → ℕ → Consumer A
    release : ℕ → Option A → Consumer A
    returned : Rc → Option A → Consumer A

  -- The ring, the two threads, what was pushed and what was popped, oldest first.
  pub record System (A : Type ℓ) : Type ℓ where
    pub ring : Ring A
    pub producer : Producer A
    pub consumer : Consumer A
    pub sent : List A
    pub received : List (Option A)

module _ {ℓ} {A : Type ℓ} where
  -- One step of a thread that pushes `x` when it calls.
  unfoldable pub produce : A → Ring A → Producer A → Ring A × Producer A
  produce x r Producer.start = (r, Producer.load_head x r.tail)
  produce x r (Producer.load_head y tail) = (r, Producer.compare y tail r.head)
  produce x r (Producer.compare y tail head) =
      if leb r.cap (sub32 tail head)
      then (r, Producer.returned minus_one)
      else (record r { buf = set r.buf (bit_and tail r.mask) y }, Producer.publish y tail)
  produce x r (Producer.publish y tail) = (record r { tail = add32 tail 1 }, Producer.returned ok)
  produce x r (Producer.returned rc) = (r, Producer.start)

  -- One step of a thread that pops.
  unfoldable pub consume : Ring A → Consumer A → Ring A × Consumer A
  consume r Consumer.start = (r, Consumer.load_tail r.head)
  consume r (Consumer.load_tail head) = (r, Consumer.compare head r.tail)
  consume r (Consumer.compare head tail) =
      if head == tail
      then (r, Consumer.returned minus_one none)
      else (r, Consumer.release head (get_elem? r.buf (bit_and head r.mask)))
  consume r (Consumer.release head out) =
      (record r { head = add32 head 1 }, Consumer.returned ok out)
  consume r (Consumer.returned rc out) = (r, Consumer.start)

  -- what the next step of the thread adds to `sent` and to `received`
  abbrev pub published : Producer A → List A
  published (Producer.publish y tail) = y ∷ []
  published _ = []

  abbrev pub released : Consumer A → List (Option A)
  released (Consumer.release head out) = out ∷ []
  released _ = []

  pub data Step (s : System A) : System A → Type ℓ where
    producer :
        (x : A)
        → Step s (record s {
          ring = (produce x s.ring s.producer).0;
          producer = (produce x s.ring s.producer).1;
          sent = s.sent ++ published s.producer;
        })
    consumer : Step s (record s {
      ring = (consume s.ring s.consumer).0;
      consumer = (consume s.ring s.consumer).1;
      received = s.received ++ released s.consumer;
    })

  -- `Reach r s`: from the ring `r`, with both threads outside their calls, the system comes to `s`.
  pub data Reach (r : Ring A) : System A → Type ℓ where
    here : Reach r (record {
      ring = r;
      producer = Producer.start;
      consumer = Consumer.start;
      sent = [];
      received = [];
    })
    next : {s t : System A} → Reach r s → Step s t → Reach r t
