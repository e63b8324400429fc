-- ===== src/Sched/Evq/Holds.antt =====
-- The operations of src/sched_evq.c on the multiset of the entries that the queue holds.
use mathlib.Core.List.Perm
use mathlib.Core.Path.{subst}
use ggmk.Base.{
  ℕ, zero, suc, ◌+◌, ◌*◌, ◌%◌, Bool, true, false, bit_or, ◌^◌, ◌≤◌, ◌<◌, ◌≡◌, ◌∙◌, refl, ap, List,
  [], ◌∷◌, some, arith, ltb, length, le→ltb, lt→ltb, lt→leb, le→leb, Perm, dec_lt, take, add32,
  if◌then◌else◌, set, length-set, get_elem?-get_or, get_or-set, take-suc, append-perm,
}
use ggmk.Rc.{ok, minus_one}
use ggmk.Sched.Evq.{Entry, Evq, blank, parent, evq_key, fresh, push}
use ggmk.Sched.Evq.Key.{evq_key_front}
use ggmk.Sched.Evq.Order.{entry, IsHeap}
use ggmk.Sched.Evq.Up.{RisesAt, heap_sift_up-Sifts}
use ggmk.Task.{Task}

-- The array has the capacity asked for, and its entries in use are in heap order.
pub record IsValid (evq : Evq) : Type 0 where
  pub sized : length evq.heap ≡ evq.cap
  pub small : evq.cap < 2 ^ 31
  pub within : evq.count ≤ evq.cap
  pub ordered : IsHeap evq.count evq.heap

abbrev pub entries : Evq → List Entry
entries evq = take evq.count evq.heap

module _ (heap : List Entry) (n : ℕ) (new : Entry) (room : n < length heap) where
  set-RisesAt : IsHeap n heap → RisesAt (suc n) (set heap n new) n
  set-RisesAt h =
      let at = λ (c : ℕ). get_or-set heap n c new blank room in
      record {
        fits = omega (arith, length-set heap n new);
        inside = omega arith;
        edges = λ c p q ne. ground (arith, at c, at (parent c), h c);
        spans = λ c p q e r. absurd (omega arith);
      }

  -- the entries with the new one written behind them
  set-perm_behind : Perm (take (suc n) (set heap n new)) (new ∷ take n heap)
  set-perm_behind =
      let last : entry (set heap n new) n ≡ new =
        ground (arith, get_or-set heap n n new blank room) in
      let same : take n (set heap n new) ≡ take n heap = set_beyond n heap n new (omega arith) in
      rw (take-suc n (set heap n new) blank (rw length-set room), last, same)
        (append-perm (take n heap) new)
    where
      set_beyond :
          (k : ℕ) (xs : List Entry) (i : ℕ) (v : Entry) → k ≤ i → take k (set xs i v) ≡ take k xs
      set_beyond zero xs i v le = refl
      set_beyond (suc k) [] i v le = refl
      set_beyond (suc k) (x ∷ xs) zero v le = absurd (omega arith)
      set_beyond (suc k) (x ∷ xs) (suc i) v le = ap (◌∷◌ x) (set_beyond k xs i v (omega arith))

-- The task with the number `seq`, under a key that is the due tick in the upper 32 bits and the priority and the
-- number joined by `|` in the lower ones.
abbrev pub numbered : Task → ℕ → Entry
numbered task seq = record {
  key = bit_or (task.meta0 % 2 ^ 32 * 2 ^ 32 + task.flags % 4 * 2 ^ 16) seq;
  task = record task { seq = seq };
}

fresh-numbered : (task : Task) (seq : ℕ) → fresh task seq ≡ numbered task seq
unfolding evq_key
fresh-numbered task seq = rw (evq_key_front task) refl

-- What else a push does to the queue.
abbrev pub Counts : Evq → Evq → Bool → Type 0
Counts evq evq' false = evq' ≡ evq
Counts evq evq' true =
    (evq'.count ≡ suc evq.count)
    × (evq'.next_seq ≡ (evq.next_seq + 1) % 2 ^ 32)
    × (evq'.cap ≡ evq.cap)

module _ {evq : Evq} (v : IsValid evq) (task : Task) where
  -- On an event queue in heap order with a capacity below 2 ^ 31: with room, `gmk_evq_push` adds the task, with
  -- the next number of the queue and under the key of its tick, its priority and that number, to the multiset of
  -- the entries, counts the entry and the number, and returns 0; without, it returns -1 and changes nothing. The
  -- heap order is kept, and every call returns.
  pub evq_push_lem :
      (evq' : Evq) × (push evq task ≡ some (if ltb evq.count evq.cap then ok else minus_one, evq'))
      × IsValid evq'
      × Perm
          (entries evq')
          (if ltb evq.count evq.cap then numbered task evq.next_seq ∷ entries evq else entries evq)
      × Counts evq evq' (ltb evq.count evq.cap)
  unfolding push
  evq_push_lem = elim (dec_lt evq.count evq.cap) [
    | no full ↦
        rw (le→ltb evq.count evq.cap (omega arith), le→leb evq.cap evq.count (omega arith))
          (evq, refl, v, Perm.rfl, refl)
    | yes lt ↦
        let room : evq.count < length evq.heap = omega (arith, v.sized) in
        let new = fresh task evq.next_seq in
        let (h, done, ordered, same, size) =
          heap_sift_up-Sifts (suc evq.count) (set evq.heap evq.count new) evq.count
            (set-RisesAt evq.heap evq.count new room v.ordered) in
        let next : add32 evq.count 1 ≡ suc evq.count = omega (arith, v.small) in
        rw
          (
            lt→ltb evq.count evq.cap lt,
            lt→leb evq.count evq.cap lt,
            get_elem?-get_or evq.heap evq.count blank room,
            done,
            next,
          )
          (
            _,
            refl,
            record {
              sized = size ∙ length-set evq.heap evq.count new ∙ v.sized;
              small = v.small;
              within = omega arith;
              ordered = ordered;
            },
            subst (λ (e : Entry). Perm (take (suc evq.count) h) (e ∷ entries evq))
                (fresh-numbered task evq.next_seq)
                (Perm.trans same (set-perm_behind evq.heap evq.count new room)),
            (refl, refl, refl),
          )
  ]
