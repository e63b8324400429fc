-- ===== src/Chan/Subscriber.antt =====
-- `gmk_chan_drain` of src/chan.c, for a P2P channel with its subscriber.
use ggmk.Base.{
  ℕ, zero, suc, ◌+◌, ◌≡◌, ◌∙◌, refl, ap, Bool, true, false, Option, some, List, [], ◌∷◌, arith, leb,
  length, take, drop, dec_lt, lt→ltb, le→ltb, get_elem?-lt, lt→leb, ◌==◌, if◌then◌else◌,
}
use native.Mathlib.Nat.{zero-add}
use ggmk.Mpmc.Slots.{Lands, Lands-ne}
use ggmk.Mpmc.Pop.{popped, pop-some, popped-Holds, pop-none}
use ggmk.Task.{Task}
use ggmk.Chan.{Sub, Chan, ChanReg, chan_p2p}
use ggmk.Chan.Drain.{with_ring, deliver, drain_loop, drain}
use ggmk.Chan.Flow.{Flow, Limits, settle, settle_all}
use ggmk.Chan.Serving.{Serving}
use ggmk.Chan.Changes.{rework, noted_lem}
use ggmk.Chan.Deliver.{deliver_p2p_lem}

module _ (weak : List Bool) (lands : Lands weak) (c : ℕ) (p q : Chan) (limits : Limits) (s : Sub)
    (dead_open : q.opened ≡ true) (p2p : p.mode ≡ chan_p2p) (active : s.active ≡ true) where
  -- a call that returns `out` and a registry that serves the flow
  abbrev pub Returns : Option (ℕ × ChanReg) → ℕ → List Task → Flow → Type 0
  Returns r out buf f = (cr' : ChanReg) × (r ≡ some (out, cr')) × Serving cr' c p q limits buf f

  drain_loop_lem :
      (left drained : ℕ) (cr : ChanReg) (buf : List Task) (f : Flow) (now : ℕ)
      → Serving cr c p q limits buf f
      → Returns
          (drain_loop weak c left drained (s ∷ []) cr now)
          (drained + length (take left buf))
          (drop left buf)
          (settle_all limits s.worker_id (take left buf) f)
  unfolding drain_loop settle_all deliver
  drain_loop_lem zero drained cr buf f now v =
      let e : drained + 0 ≡ drained = omega arith in rw e (cr, refl, v)
  drain_loop_lem (suc left) drained cr [] f now v =
      let e : drained + 0 ≡ drained = omega arith in
      rw (drain_loop, v.port.at, pop-none v.port.holds weak (Lands-ne weak lands), e)
        (
          _,
          refl,
          rework c p q limits cr [] [] f (λ (ch : Chan). record ch { ring = v.port.ch.ring })
              f.drops f.emits v refl v.port.holds refl v.port.dropped v.port.emitted,
        )
  drain_loop_lem (suc left) drained cr (x ∷ buf) f now v =
      let e : drained + suc (length (take left buf)) ≡ suc drained + length (take left buf) =
        omega arith in
      let ring = popped v.port.holds in
      let popped_v =
        rework c p q limits cr (x ∷ buf) buf f (λ (ch : Chan). record ch { ring = ring }) f.drops
          f.emits v refl (popped-Holds v.port.holds) refl v.port.dropped v.port.emitted in
      let mode : v.port.ch.mode ≡ chan_p2p = ap (λ (ch : Chan). ch.mode) v.port.same ∙ p2p in
      let (cr', done, v') =
        deliver_p2p_lem weak lands c p q limits dead_open (with_ring cr c ring) buf f s [] x active
          popped_v in
      rw (drain_loop, v.port.at, pop-some v.port.holds weak lands, deliver, mode, done, e)
        (drain_loop_lem left (suc drained) cr' buf (settle limits s.worker_id f x) now v')

  -- the limit of the drain
  abbrev pub most : ℕ → ℕ
  most limit = if limit == 0 then 0xffff_ffff else limit

  pub drain_lem :
      (cr : ChanReg) (limit : ℕ) (buf : List Task) (f : Flow) (now : ℕ)
      → p.subs ≡ s ∷ []
      → Serving cr c p q limits buf f
      → Returns
          (drain weak c cr limit now)
          (length (take (most limit) buf))
          (drop (most limit) buf)
          (settle_all limits s.worker_id (take (most limit) buf) f)
  unfolding drain
  drain_lem cr limit buf f now bound v =
      let there : leb (length cr.channels) c ≡ false =
        lt→leb c (length cr.channels) (get_elem?-lt cr.channels c v.port.ch v.port.at) in
      let subs : v.port.ch.subs ≡ s ∷ [] = ap (λ (ch : Chan). ch.subs) v.port.same ∙ bound in
      let (cr', done, v') = drain_loop_lem (most limit) 0 cr buf f now v in
      let (cr'', told, v'') =
        noted_lem c p q limits cr' _ _ now 0x13 0 0 c (length (take (most limit) buf)) v' in
      elim (dec_lt 0 (length (take (most limit) buf))) [
        | yes some_task ↦
            rw
              (
                drain,
                there,
                v.port.at,
                subs,
                done,
                zero-add,
                lt→ltb 0 (length (take (most limit) buf)) some_task,
                told,
              )
              (cr'', refl, v'')
        | no nothing ↦
            rw
              (
                drain,
                there,
                v.port.at,
                subs,
                done,
                zero-add,
                le→ltb 0 (length (take (most limit) buf)) (omega arith),
              )
              (cr', refl, v')
      ]
