-- ===== src/Module.antt =====
-- src/module.c: the modules, the table of handlers by task type, and the failures that poison a type.
-- A function pointer is of type `F`, `none` for NULL, and so are a module's `init` and `fini`. What runs
-- behind a pointer is an argument of the operations that call it.
pub mod Table
pub mod Poison
pub mod Calls
mod Tests
use ggmk.Base.{
  ℕ, zero, suc, ◌+◌, ◌%◌, ◌-◌, ◌^◌, Bool, true, false, not, ◌&&◌, Option, none, some, List, [], ◌∷◌,
  ◌++◌, ltb, leb, if◌then◌else◌, get_or, set, replicate, length, ◌>>=◌, add32,
}
use ggmk.Rc.{Rc, ok, retry, fail, is_ok}
use ggmk.Task.{Task}
use ggmk.Trace
use ggmk.Trace.{Trace, Event, write_if}

-- `gmk_handler_reg_t`; a name is the address of a string.
pub record Handler (F : Type 0) : Type 0 where
  pub type : ℕ
  pub fn : Option F
  pub name : ℕ
  pub max_yields : ℕ

-- `gmk_module_t`
pub record Module (F : Type 0) : Type 0 where
  pub handlers : List (Handler F)
  pub init : Option F
  pub fini : Option F

-- `gmk_module_reg_t`. The modules are the first `n_modules` entries of the array;
-- the channels and the metrics, which are only kept, are left out.
pub record Registry (F : Type 0) : Type 0 where
  pub dispatch : List (Option F)
  pub handler_names : List ℕ
  pub max_yields : List ℕ
  pub fail_counts : List ℕ
  pub poisoned : List Bool
  pub modules : List (Module F)
  pub n_handlers : ℕ
  pub trace : Option Trace

-- `GMK_MAX_HANDLERS`, `GMK_MAX_MODULES`, `GMK_POISON_THRESHOLD`
abbrev pub max_handlers : ℕ
max_handlers = 256

abbrev pub max_modules : ℕ
max_modules = 64

abbrev pub poison_threshold : ℕ
poison_threshold = 16

-- the conversion of a result to `uint32_t`
abbrev pub to_uint32 : Rc → ℕ
to_uint32 ok = 0
to_uint32 retry = 1
to_uint32 (fail code) = (2 ^ 32 - code % 2 ^ 32) % 2 ^ 32

module _ {F : Type 0} where
  -- `gmk_module_reg_init`
  unfoldable pub reg_init : Option Trace → Registry F
  reg_init trace = record {
    dispatch = replicate 256 none;
    handler_names = replicate 256 0;
    max_yields = replicate 256 0;
    fail_counts = replicate 256 0;
    poisoned = replicate 256 false;
    modules = [];
    n_handlers = 0;
    trace = trace;
  }

  -- one handler entered in the table
  unfoldable pub enter : Registry F → Handler F → Registry F
  enter mr h = record mr {
    dispatch = set mr.dispatch h.type h.fn;
    handler_names = set mr.handler_names h.type h.name;
    max_yields = set mr.max_yields h.type (if ltb 0 h.max_yields then h.max_yields else 16);
    n_handlers = add32 mr.n_handlers 1;
  }

  -- the loop of `gmk_module_register` over the handlers
  pub enter_all : Registry F → List (Handler F) → Rc × Registry F
  unfolding enter
  enter_all mr [] = (ok, mr)
  enter_all mr (h ∷ hs) =
      let rest = enter_all (enter mr h) hs in
      if leb max_handlers h.type
      then (fail 4, mr)
      else elim (get_or mr.dispatch h.type none) [ some f ↦ (fail 6, mr) | none ↦ rest ]

  -- the module listed, if its handlers are entered
  abbrev pub listed : Module F → Rc × Registry F → Rc × Registry F
  listed m (ok, mr) = (ok, record mr { modules = mr.modules ++ m ∷ [] })
  listed m (retry, mr) = (retry, mr)
  listed m (fail code, mr) = (fail code, mr)

  -- `gmk_module_register`
  unfoldable pub register : Registry F → Module F → Rc × Registry F
  unfolding enter_all
  register mr m =
      if leb max_modules (length mr.modules)
      then (fail 2, mr)
      else listed m (enter_all mr m.handlers)

  -- `gmk_module_is_poisoned`
  unfoldable pub is_poisoned : Registry F → ℕ → Bool
  is_poisoned mr type = if leb max_handlers type then false else get_or mr.poisoned type false

  -- `gmk_module_reset_poison`
  unfoldable pub reset_poison : Registry F → ℕ → Registry F
  reset_poison mr type = if leb max_handlers type then mr else record mr {
    poisoned = set mr.poisoned type false;
    fail_counts = set mr.fail_counts type 0;
  }

  -- `gmk_module_record_fail` at the time stamp `now`; `none` is an access beyond the trace's rings.
  unfoldable pub record_fail : Registry F → ℕ → ℕ → Option (Registry F)
  unfolding write_if
  record_fail mr type now =
      let count = add32 (get_or mr.fail_counts type 0) 1 in
      let failed = record mr { fail_counts = set mr.fail_counts type count } in
      let ev : Event = record {
        tsc = now;
        ev_type = 0x32;
        tenant = 0;
        type = type % 2 ^ 16;
        arg0 = type;
        arg1 = count;
      } in
      let poison = write_if mr.trace ev >>= λ trace.
      some (record failed { poisoned = set mr.poisoned type true; trace = trace }) in
      if leb max_handlers type
      then some mr
      else if leb poison_threshold count && not (get_or mr.poisoned type false)
      then poison
      else some failed

-- What a handler sees and may change: the registry, with the trace, the task, and all else.
pub record World (F S : Type 0) : Type 0 where
  pub mr : Registry F
  pub task : Task
  pub rest : S

module _ {F S : Type 0} where
  -- an event of the task written to the trace, if there is one
  unfoldable pub note : World F S → ℕ → ℕ → ℕ → ℕ → ℕ → Option (World F S)
  unfolding write_if
  note w now ev_type type arg0 arg1 =
      let ev : Event = record {
        tsc = now;
        ev_type = ev_type;
        tenant = w.task.tenant;
        type = type % 2 ^ 16;
        arg0 = arg0;
        arg1 = arg1;
      } in
      write_if w.mr.trace ev >>= λ trace. some (record w { mr = record w.mr { trace = trace } })

  module _ (call : F → World F S → Rc × World F S) where
    -- the dispatch to an entry of the table
    unfoldable pub dispatch_to : Option F → World F S → ℕ → ℕ → Option (Rc × World F S)
    unfolding note
    dispatch_to none w now later = some (fail 5, w)
    dispatch_to (some f) w now later =
        let refused = note w now 0x32 w.task.type w.task.type 0 >>= λ w'. some (fail 8, w') in
        let served = note w now 0x01 w.task.type w.task.seq 0 >>= λ w'.
        (let (rc, done) = call f w' in
          note done later 0x02 w.task.type done.task.seq (to_uint32 rc) >>= λ w''.
          some (rc, w'')) in
        if get_or w.mr.poisoned w.task.type false then refused else served

    -- `gmk_module_dispatch`, with the time stamps of its two events
    unfoldable pub dispatch : World F S → ℕ → ℕ → Option (Rc × World F S)
    unfolding dispatch_to
    dispatch w now later =
        if leb max_handlers w.task.type
        then some (fail 5, w)
        else dispatch_to (get_or w.mr.dispatch w.task.type none) w now later

    -- the call of a module's `init`, if it has one
    abbrev pub run_init : Option F → World F S → Rc × World F S
    run_init none w = (ok, w)
    run_init (some f) w = call f w

    -- The loop of `gmk_module_init_all`; an `init` or `fini` that registers modules is not modelled.
    pub init_each : List (Module F) → World F S → Rc × World F S
    init_each [] w = (ok, w)
    init_each (m ∷ ms) w =
        let (rc, w') = run_init m.init w in
        let rest = init_each ms w' in if is_ok rc then rest else (rc, w')

    -- `gmk_module_init_all`
    unfoldable pub init_all : World F S → Rc × World F S
    unfolding init_each
    init_all w = init_each w.mr.modules w

    -- the loop of `gmk_module_fini_all`, from the last module to the first
    pub fini_each : List (Module F) → World F S → World F S
    fini_each [] w = w
    fini_each (m ∷ ms) w = (run_init m.fini (fini_each ms w)).1

    -- `gmk_module_fini_all`
    unfoldable pub fini_all : World F S → World F S
    unfolding fini_each
    fini_all w = fini_each w.mr.modules w
