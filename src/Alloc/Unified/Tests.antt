-- ===== src/Alloc/Unified/Tests.antt =====
-- The theorems on src/alloc.c, at concrete memory.
use ggmk.Base.{◌≡◌, refl, [], ◌∷◌, none, some, arith, true, false, add32, ◌>>=◌}
use ggmk.Alloc.Slab
use ggmk.Alloc.Slab.{Slab}
use ggmk.Alloc.Unified.{
  Alloc, Headers, init, alloc, route, free, payload_alloc, payload_release, with_header,
}
use ggmk.Alloc.Unified.Init.{IsDivided, alloc_init_lem}
use ggmk.Alloc.Unified.Payload.{run_refs, retain, release, payload_refs_lem}

alloc_init_lem_sample : (a : Alloc) × (init (some 65536) 8192 ≡ some a) × IsDivided 65536 8192 a
alloc_init_lem_sample = alloc_init_lem 65536 8192 (omega arith) (omega arith)

-- an allocator with a slab of two tasks and no bins
abbrev tasks : Slab
tasks = record {
  base = 4096;
  total_size = 104;
  obj_size = 48;
  capacity = 2;
  alloc_count = 0;
  high_water = 0;
  free_list = some 1 ∷ none ∷ [];
  free_head = some 0;
}

abbrev pub small_alloc : Alloc
small_alloc = record {
  arena = record { base = some 4096; size = 104 };
  task_slab = tasks;
  trace_slab = record tasks {
    base = 4200;
    total_size = 0;
    capacity = 0;
    free_list = [];
    free_head = none;
  };
  block = record { bins = []; base = 4200; total_size = 0 };
  bump = record { base = 4200; size = 0; offset = 0; high_water = 0 };
  total_alloc_bytes = 0;
  total_alloc_fails = 0;
}

abbrev pub no_headers : Headers
no_headers = λ p. record { refcount = 0; size = 0 }

abbrev one_taken : Alloc
one_taken = record small_alloc {
  task_slab = record tasks { alloc_count = 1; high_water = 1; free_head = some 1 };
  total_alloc_bytes = 48;
}

abbrev one_header : Headers
unfolding with_header
one_header = with_header no_headers 4096 (record { refcount = 1; size = 40 })

payload_made : payload_alloc no_headers small_alloc 40 ≡ some (some 4104, one_header, one_taken)
unfolding payload_alloc alloc route Slab.alloc Slab.alloc_from one_header
payload_made = refl

payload_refs_lem_example :
    (headers₂ headers₃ : Headers) × (run_refs one_header one_taken 4104 (retain ∷ release ∷ [])
      ≡ some (false, headers₂, one_taken))
    × (payload_release headers₂ one_taken 4104
        ≡ (free one_taken 4096 48 >>= λ a₂. some (true, headers₃, a₂)))
payload_refs_lem_example =
    payload_refs_lem no_headers small_alloc 40 one_header one_taken 4104 (retain ∷ release ∷ [])
      payload_made (omega arith, (omega arith, refl))

-- The last release gives the object back to the slab.
task_freed :
    free one_taken 4096 48 ≡ some (record one_taken { task_slab = record tasks { high_water = 1 } })
unfolding free Slab.free
task_freed = refl

-- A size of 2 ^ 32 - 8 is asked for with the header as 0 bytes, which gives nothing; one more byte wraps
-- to an allocation of one byte.
payload_wraps : add32 8 0xffff_fff9 ≡ 1
payload_wraps = refl
