-- ===== src/Spsc/Threads/Inv.antt =====
-- What both threads of src/ring_spsc.c rely on, in every reachable state.
use ggmk.Base.{
  ℕ, suc, ◌+◌, ◌%◌, ◌≤◌, ◌<◌, ◌≡◌, refl, sym, ◌∙◌, Option, some, List, [], ◌∷◌, ◌++◌, map, arith,
  length, length-append, get_elem?, get_elem?-append, add32, sub32, u32_mod, leb, ◌==◌, Bool-cases,
  inl, inr,
}
use mathlib.Core.List.{append-nil, append_assoc, map-append}
use ggmk.Bits.Wrap.{wrap-add-mod}
use ggmk.Spsc.{Ring}
use ggmk.Spsc.Holds.{Holds}
use ggmk.Spsc.Slots.{store-Holds, store-slot, publish-Holds, first_slot, release-Holds}
use ggmk.Spsc.Threads.{
  Producer, Consumer, System, Step, producer, consumer, Reach, here, next, produce, consume,
  published, released,
}

module _ {ℓ} {A : Type ℓ} where
  -- the locals of the producer against the ring and its elements: `head` may be stale
  abbrev pub ProducerOk : Ring A → List A → Producer A → Type ℓ
  ProducerOk r xs (Producer.load_head x tail) = Unit {ℓ} × (tail ≡ r.tail)
  ProducerOk r xs (Producer.compare x tail head) =
      Unit {ℓ} × (tail ≡ r.tail) × (length xs ≤ sub32 tail head)
  ProducerOk r xs (Producer.publish x tail) =
      (tail ≡ r.tail)
      × (length xs < r.cap)
      × (get_elem? r.buf ((r.head + length xs) % r.cap) ≡ some x)
  ProducerOk r xs _ = Unit {ℓ}

  -- the locals of the consumer against `head` and the elements: `tail` may be stale
  abbrev pub ConsumerOk : ℕ → List A → Consumer A → Type ℓ
  ConsumerOk at xs (Consumer.load_tail head) = Unit {ℓ} × (head ≡ at)
  ConsumerOk at xs (Consumer.compare head tail) =
      Unit {ℓ} × (head ≡ at) × (tail < u32_mod) × (sub32 tail head ≤ length xs)
  ConsumerOk at xs (Consumer.release head out) =
      (head ≡ at) × (0 < length xs) × (out ≡ get_elem? xs 0)
  ConsumerOk at xs _ = Unit {ℓ}

  pub record Inv (s : System A) : Type ℓ where
    pub contents : List A
    pub holds : Holds s.ring contents
    pub fifo : map some s.sent ≡ s.received ++ map some contents
    pub producing : ProducerOk s.ring contents s.producer
    pub consuming : ConsumerOk s.ring.head contents s.consumer

  -- What the consumer knows outlasts a push.
  ConsumerOk-append :
      (at : ℕ) (xs : List A) (x : A) (c : Consumer A)
      → ConsumerOk at xs c
      → ConsumerOk at (xs ++ x ∷ []) c
  ConsumerOk-append at xs x Consumer.start k = tt
  ConsumerOk-append at xs x (Consumer.load_tail head) k = k
  ConsumerOk-append at xs x (Consumer.compare head tail) (u, e, w, le) =
      (u, e, w, omega (arith, length-append xs (x ∷ [])))
  ConsumerOk-append at xs x (Consumer.release head out) (e, pos, o) =
      (e, omega (arith, length-append xs (x ∷ [])), o ∙ sym (get_elem?-append xs (x ∷ []) 0 pos))
  ConsumerOk-append at xs x (Consumer.returned rc out) k = tt

  -- What the producer knows outlasts a pop.
  ProducerOk-release :
      (r : Ring A) (x : A) (xs : List A) (p : Producer A)
      → Holds r (x ∷ xs)
      → ProducerOk r (x ∷ xs) p
      → ProducerOk (record r { head = add32 r.head 1 }) xs p
  ProducerOk-release r x xs Producer.start h k = tt
  ProducerOk-release r x xs (Producer.load_head y tail) h k = k
  ProducerOk-release r x xs (Producer.compare y tail head) h (u, e, le) = (u, e, omega arith)
  ProducerOk-release r x xs (Producer.publish y tail) h (e, room, at) =
      let shift : r.head + 1 + length xs ≡ r.head + suc (length xs) = omega arith in
      (e, omega arith, rw (wrap-add-mod h.pow2 h.small (r.head + 1) (length xs), shift) at)
  ProducerOk-release r x xs (Producer.returned rc) h k = tt

  module _ (r : Ring A) (xs sent : List A) (received : List (Option A)) where
    produce-Inv :
        (x : A) (p : Producer A) (c : Consumer A)
        → Holds r xs
        → map some sent ≡ received ++ map some xs
        → ProducerOk r xs p
        → ConsumerOk r.head xs c
        → Inv (record {
          ring = (produce x r p).0;
          producer = (produce x r p).1;
          consumer = c;
          sent = sent ++ published p;
          received = received;
        })
    unfolding produce
    produce-Inv x Producer.start c h f k l = record {
      contents = xs;
      holds = h;
      fifo = rw append-nil f;
      producing = (tt, refl);
      consuming = l;
    }
    produce-Inv x (Producer.load_head y tail) c h f (u, k) l = record {
      contents = xs;
      holds = h;
      fifo = rw append-nil f;
      producing = (tt, k, omega (arith, h.counted, h.fits, h.small));
      consuming = l;
    }
    produce-Inv x (Producer.compare y tail head) c h f (u, k, le) l =
        elim (Bool-cases (leb r.cap (sub32 tail head))) [
          | inl stop ↦
              rw (stop, append-nil)
                (record { contents = xs; holds = h; fifo = f; producing = tt; consuming = l })
          | inr go ↦
              let room : length xs < r.cap = ground arith in
              rw (go, append-nil, k)
                (record {
                  contents = xs;
                  holds = store-Holds h y room;
                  fifo = f;
                  producing = (refl, room, store-slot h y room);
                  consuming = l;
                })
        ]
    produce-Inv x (Producer.publish y tail) c h f (k, room, at) l = rw k (record {
      contents = xs ++ y ∷ [];
      holds = publish-Holds h room at;
      fifo = rw (map-append some sent, map-append some xs, f, append_assoc);
      producing = tt;
      consuming = ConsumerOk-append r.head xs y c l;
    })
    produce-Inv x (Producer.returned rc) c h f k l = record {
      contents = xs;
      holds = h;
      fifo = rw append-nil f;
      producing = tt;
      consuming = l;
    }

  module _ (r : Ring A) (sent : List A) (received : List (Option A)) where
    consume-Inv :
        (xs : List A) (p : Producer A) (c : Consumer A)
        → Holds r xs
        → map some sent ≡ received ++ map some xs
        → ProducerOk r xs p
        → ConsumerOk r.head xs c
        → Inv (record {
          ring = (consume r c).0;
          producer = p;
          consumer = (consume r c).1;
          sent = sent;
          received = received ++ released c;
        })
    unfolding consume
    consume-Inv xs p Consumer.start h f k l = record {
      contents = xs;
      holds = h;
      fifo = rw append-nil f;
      producing = k;
      consuming = (tt, refl);
    }
    consume-Inv xs p (Consumer.load_tail head) h f k (u, e) = record {
      contents = xs;
      holds = h;
      fifo = rw append-nil f;
      producing = k;
      consuming =
          (tt, e, omega (arith, h.counted), omega (arith, h.counted, h.head_word, h.fits, h.small));
    }
    consume-Inv xs p (Consumer.compare head tail) h f k (u, e, w, le) =
        elim (Bool-cases (head == tail)) [
          | inl none_left ↦
              rw (none_left, append-nil)
                (record { contents = xs; holds = h; fifo = f; producing = k; consuming = tt })
          | inr more ↦
              let filled : 0 < length xs = ground (arith, h.head_word) in
              rw (more, append-nil)
                (record {
                  contents = xs;
                  holds = h;
                  fifo = f;
                  producing = k;
                  consuming = (e, filled, rw e (first_slot h filled));
                })
        ]
    consume-Inv [] p (Consumer.release head out) h f k (e, pos, o) = absurd (omega arith)
    consume-Inv (x ∷ xs) p (Consumer.release head out) h f k (e, pos, o) =
        rw (e, o)
          (record {
            contents = xs;
            holds = release-Holds h;
            fifo = rw append_assoc f;
            producing = ProducerOk-release r x xs p h k;
            consuming = tt;
          })
    consume-Inv xs p (Consumer.returned rc out) h f k l = record {
      contents = xs;
      holds = h;
      fifo = rw append-nil f;
      producing = k;
      consuming = tt;
    }

  pub Step-Inv : {s t : System A} → Step s t → Inv s → Inv t
  Step-Inv {s} (producer x) inv =
      produce-Inv s.ring inv.contents s.sent s.received x s.producer s.consumer inv.holds inv.fifo
        inv.producing inv.consuming
  Step-Inv {s} consumer inv =
      consume-Inv s.ring s.sent s.received inv.contents s.producer s.consumer inv.holds inv.fifo
        inv.producing inv.consuming

  pub Reach-Inv : {r : Ring A} {s : System A} → Holds r [] → Reach r s → Inv s
  Reach-Inv h here = record {
    contents = [];
    holds = h;
    fifo = refl;
    producing = tt;
    consuming = tt;
  }
  Reach-Inv h (next reach st) = Step-Inv st (Reach-Inv h reach)
