-- ===== src/Mpmc/Tests.antt =====
-- Runs of the ring of src/ring_mpmc.c, and its theorems at concrete rings.
use ggmk.Base.{
  ℕ, ◌+◌, ◌%◌, ◌≤◌, ◌<◌, ◌≡◌, refl, List, [], ◌∷◌, none, some, Bool, true, false, arith, get_elem?,
  zero, suc,
}
use ggmk.Bits.{IsPow2}
use ggmk.Fifo
use ggmk.Fifo.{Op, put, get}
use ggmk.Rc.{ok, minus_one}
use ggmk.Platform.{is_power_of_two}
use ggmk.Mpmc.{Ring, cell_stride, init, init_buf, push, pop}
use ggmk.Mpmc.Holds.{Holds}
use ggmk.Mpmc.Init.{cell_stride_lem, init_buf_valid}
use ggmk.Mpmc.Refine.{step, mpmc_run_refines}
use ggmk.Mpmc.Single.{single, single_loses}

-- empty, with counters about to wrap
abbrev top : Ring ℕ
top = record {
  head = 0xffff_ffff;
  tail = 0xffff_ffff;
  cap = 2;
  mask = 1;
  elem_size = 4;
  cell_size = 8;
  buf = record { seq = 0; value = 0 } ∷ record { seq = 0xffff_ffff; value = 0 } ∷ [];
}

abbrev two_pow : IsPow2 2
two_pow = record { exponent = 1; power = refl }

top-free :
    (i : ℕ)
    → i < 2
    → (x : ℕ) × (get_elem? top.buf ((0xffff_ffff + i) % 2)
        ≡ some (record { seq = (0xffff_ffff + i) % 4294967296; value = x }))
top-free zero h = (0, refl)
top-free (suc zero) h = (0, refl)
top-free (suc (suc i)) h = absurd (omega arith)

top-Holds : Holds top []
top-Holds = record {
  pow2 = two_pow;
  small = omega arith;
  two = omega arith;
  masked = refl;
  slots = refl;
  head_word = omega arith;
  counted = refl;
  fits = omega arith;
  filled = λ i x e lt. absurd (omega arith);
  free = λ i le lt. top-free i lt;
}

abbrev script : List (Op ℕ)
script = put 5 ∷ put 6 ∷ put 7 ∷ get ∷ get ∷ get ∷ []

-- the first compare-and-swap of each call fails spuriously
abbrev weak : ℕ → List Bool
weak n = true ∷ false ∷ []

script_replies :
    Fifo.run (step weak) (0, top) script
    ≡ (ok, none)
      ∷ (ok, none)
      ∷ (minus_one, none)
      ∷ (ok, some 5)
      ∷ (ok, some 6)
      ∷ (minus_one, none)
      ∷ []
unfolding Fifo.run step push pop
script_replies = refl

mpmc_run_refines_example : Fifo.run (step weak) (0, top) script ≡ Fifo.run (Fifo.step 2) [] script
mpmc_run_refines_example = mpmc_run_refines weak (λ n. tt) top-Holds script

cell_stride_lem_sample :
    (4 + 48 ≤ cell_stride 48) × (cell_stride 48 < 4 + 48 + 8) × (cell_stride 48 % 8 ≡ 0)
cell_stride_lem_sample = cell_stride_lem 48 (omega arith)

init_buf_valid_sample : (r : Ring ℕ) × (init_buf 2 4 false 16 0 ≡ some r) × Holds r [] × (r.cap ≡ 2)
unfolding cell_stride
init_buf_valid_sample =
    init_buf_valid 2 4 16 0 two_pow (omega arith) (omega arith) (omega arith) (omega arith)

init_of_one : init {A = ℕ} 1 4 (λ bytes. record { seq = 9; value = 0 } ∷ []) ≡ some (single 4 0 0)
unfolding init is_power_of_two
init_of_one = refl

single_loses_example :
    (r s : Ring ℕ) × (push (false ∷ []) (single 4 0 0) 5 ≡ some (ok, r))
    × (push (false ∷ []) r 6 ≡ some (ok, s))
    × (pop (false ∷ false ∷ []) s ≡ none)
single_loses_example = single_loses 4 0 (omega arith) 0 5 6 (false ∷ false ∷ [])
