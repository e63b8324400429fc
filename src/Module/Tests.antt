-- ===== src/Module/Tests.antt =====
-- Runs of src/module.c, and its theorems at a registry with one module. A handler is a number, and the
-- calls are listed in the rest of the world.
use ggmk.Base.{ℕ, ◌≡◌, ◌≢◌, refl, false, some, none, List, [], ◌∷◌, arith}
use ggmk.Rc.{Rc, ok, fail}
use ggmk.Trace.Tests.{two_tenants, two_tenants-IsLogged}
use ggmk.Module.{
  Module, Registry, World, reg_init, register, dispatch, is_poisoned, reset_poison, init_all,
  fini_all,
}
use ggmk.Module.Table.{Entered, entry, register_lem}
use ggmk.Module.Poison.{IsValid, record_fails, record_fails_lem}
use ggmk.Module.Calls.{Outcome, dispatch_lem}

abbrev echo : Module ℕ
echo = record {
  handlers =
      record { type = 7; fn = some 70; name = 1; max_yields = 0 }
      ∷ record { type = 9; fn = some 90; name = 2; max_yields = 3 }
      ∷ [];
  init = some 1;
  fini = some 2;
}

abbrev fresh_registry : Registry ℕ
unfolding reg_init
fresh_registry = reg_init (some two_tenants)

register_lem_example : Entered fresh_registry echo.handlers (register fresh_registry echo)
unfolding fresh_registry
register_lem_example = register_lem fresh_registry echo refl

fresh_registry-IsValid : IsValid fresh_registry
unfolding fresh_registry
fresh_registry-IsValid = record {
  counts = refl;
  flags = refl;
  traced = ((λ i. []), two_tenants-IsLogged);
}

record_fails_lem_example :
    (mr' : Registry ℕ) × (record_fails (reset_poison fresh_registry 7) 7 (1 ∷ 2 ∷ []) ≡ some mr')
    × (is_poisoned mr' 7 ≡ false)
    × ((j : ℕ) → 7 ≢ j → is_poisoned mr' j ≡ is_poisoned fresh_registry j)
record_fails_lem_example =
    record_fails_lem fresh_registry 7 (1 ∷ 2 ∷ []) fresh_registry-IsValid (omega arith)

abbrev call_listed : ℕ → World ℕ (List ℕ) → Rc × World ℕ (List ℕ)
call_listed f w = (ok, record w { rest = f ∷ w.rest })

abbrev with_echo : World ℕ (List ℕ)
unfolding register
with_echo = record {
  mr = (register fresh_registry echo).1;
  task = record {
    type = 9;
    flags = 0;
    tenant = 1;
    channel = 0;
    seq = 5;
    payload_ptr = 0;
    payload_len = 0;
    yield_count = 0;
    pad = 0;
    meta0 = 0;
    meta1 = 0;
  };
  rest = [];
}

dispatch_lem_sample :
    Outcome call_listed (some 90) false with_echo (dispatch call_listed with_echo 1 2)
unfolding is_poisoned with_echo fresh_registry
dispatch_lem_sample =
    dispatch_lem call_listed (λ f w traced. traced) 1 2 with_echo ((λ i. []), two_tenants-IsLogged)

-- Each module is set up, and taken down.
init_all_calls : (init_all call_listed with_echo).1.rest ≡ 1 ∷ []
unfolding init_all with_echo fresh_registry
init_all_calls = refl

fini_all_calls : (fini_all call_listed with_echo).rest ≡ 2 ∷ []
unfolding fini_all with_echo fresh_registry
fini_all_calls = refl

-- A module that lists a type twice is refused, and the first of its handlers stays in the table.
abbrev twice : Module ℕ
twice = record {
  handlers =
      record { type = 7; fn = some 70; name = 1; max_yields = 0 }
      ∷ record { type = 7; fn = some 71; name = 2; max_yields = 0 }
      ∷ [];
  init = none;
  fini = none;
}

register-twice :
    ((register fresh_registry twice).0 ≡ fail 6)
    × (entry (register fresh_registry twice).1 7 ≡ some 70)
    × ((register fresh_registry twice).1.modules ≡ [])
unfolding register fresh_registry
register-twice = (refl, refl, refl)
