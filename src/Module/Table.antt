-- ===== src/Module/Table.antt =====
-- What `gmk_module_register` of src/module.c does to the table of handlers.
use ggmk.Base.{
  ℕ, ◌<◌, ◌≡◌, ◌∙◌, refl, ap, sym, Option, none, some, List, [], ◌∷◌, arith, get_or, length,
  get_or-set, length-set, dec_lt, lt→leb, le→leb, inl, inr, Option-cases, ℕ_discrete,
}
use mathlib.Core.Path.{subst}
use ggmk.Rc.{Rc, ok, retry, fail}
use ggmk.Module.{Handler, Module, Registry, enter, enter_all, listed, register}

module _ {F : Type 0} where
  -- the entry of a task type
  abbrev pub entry : Registry F → ℕ → Option F
  entry mr type = get_or mr.dispatch type none

  -- the handlers that are not NULL are the entries of their types
  abbrev pub Serves : Registry F → List (Handler F) → Type 0
  Serves mr [] = Unit
  Serves mr (h ∷ hs) = ((f : F) → h.fn ≡ some f → entry mr h.type ≡ some f) × Serves mr hs

  -- How a registration ends: all entries that there were stay, and after a result 0 the handlers are
  -- entered.
  abbrev pub Entered : Registry F → List (Handler F) → Rc × Registry F → Type 0
  Entered mr hs (rc, mr') =
      ((type : ℕ) (f : F) → entry mr type ≡ some f → entry mr' type ≡ some f)
      × (length mr'.dispatch ≡ length mr.dispatch)
      × (rc ≡ ok → Serves mr' hs)

  enter-keeps :
      (mr : Registry F) (h : Handler F)
      → length mr.dispatch ≡ 256
      → h.type < 256
      → entry mr h.type ≡ none
      → (type : ℕ) (f : F) → entry mr type ≡ some f
      → entry (enter mr h) type ≡ some f
  unfolding enter
  enter-keeps mr h size lt free type f e = elim (ℕ_discrete h.type type) [
    | yes same ↦ absurd (ground (arith, ap (entry mr) same))
    | no ne ↦ ground (arith, get_or-set mr.dispatch h.type type h.fn none (omega arith))
  ]

  enter-serves :
      (mr : Registry F) (h : Handler F)
      → length mr.dispatch ≡ 256
      → h.type < 256
      → (f : F) → h.fn ≡ some f
      → entry (enter mr h) h.type ≡ some f
  unfolding enter
  enter-serves mr h size lt f e =
      ground (arith, get_or-set mr.dispatch h.type h.type h.fn none (omega arith))

  length-enter :
      (mr : Registry F) (h : Handler F) → length (enter mr h).dispatch ≡ length mr.dispatch
  unfolding enter
  length-enter mr h = length-set mr.dispatch h.type h.fn

  enter_all_next :
      (mr : Registry F) (h : Handler F) (hs : List (Handler F))
      → h.type < 256
      → entry mr h.type ≡ none
      → enter_all mr (h ∷ hs) ≡ enter_all (enter mr h) hs
  unfolding enter_all
  enter_all_next mr h hs lt free = rw (lt→leb h.type 256 lt, free) refl

  enter_all_taken :
      (mr : Registry F) (h : Handler F) (hs : List (Handler F)) (f : F)
      → h.type < 256
      → entry mr h.type ≡ some f
      → enter_all mr (h ∷ hs) ≡ (fail 6, mr)
  unfolding enter_all
  enter_all_taken mr h hs f lt taken = rw (lt→leb h.type 256 lt, taken) refl

  listed-Serves :
      (mr : Registry F) (m : Module F) (hs : List (Handler F))
      → Serves mr hs
      → Serves (listed m (ok, mr)).1 hs
  listed-Serves mr m [] s = tt
  listed-Serves mr m (h ∷ hs) (e, s) = (e, listed-Serves mr m hs s)

  listed-Entered :
      (mr : Registry F) (m : Module F) (r : Rc × Registry F)
      → Entered mr m.handlers r
      → Entered mr m.handlers (listed m r)
  listed-Entered mr m (ok, mr') e = (e.0, e.1, λ done. listed-Serves mr' m m.handlers (e.2 refl))
  listed-Entered mr m (retry, mr') e = e
  listed-Entered mr m (fail code, mr') e = e

  enter_all-Entered :
      (mr : Registry F) (hs : List (Handler F))
      → length mr.dispatch ≡ 256
      → Entered mr hs (enter_all mr hs)
  unfolding enter_all
  enter_all-Entered mr [] size = ((λ type f e. e), refl, λ e. tt)
  enter_all-Entered mr (h ∷ hs) size =
      let kept : Entered mr (h ∷ hs) (fail 6, mr) =
        ((λ type f e. e), refl, λ e. absurd (ground arith)) in
      elim (dec_lt h.type 256) [
        | no beyond ↦
            rw (le→leb 256 h.type (omega arith)) ((λ type f e. e), refl, λ e. absurd (ground arith))
        | yes lt ↦ elim (Option-cases (entry mr h.type)) [
          | inr (f, taken) ↦
              subst (Entered mr (h ∷ hs)) (sym (enter_all_taken mr h hs f lt taken)) kept
          | inl free ↦
              let (keeps, same, serves) =
                enter_all-Entered (enter mr h) hs (length-enter mr h ∙ size) in
              subst (Entered mr (h ∷ hs)) (sym (enter_all_next mr h hs lt free)) (
                (λ type f e. keeps type f (enter-keeps mr h size lt free type f e)),
                same ∙ length-enter mr h,
                λ done. ((λ f e. keeps h.type f (enter-serves mr h size lt f e)), serves done),
              )
        ]
      ]

  -- Whatever its result, `gmk_module_register` replaces no handler in a table of 256 entries; if the
  -- result is 0, each handler of the module that is not NULL is the entry of its type.
  pub register_lem :
      (mr : Registry F) (m : Module F)
      → length mr.dispatch ≡ 256
      → Entered mr m.handlers (register mr m)
  unfolding register
  register_lem mr m size = elim (dec_lt (length mr.modules) 64) [
    | no full ↦
        rw (le→leb 64 (length mr.modules) (omega arith))
          ((λ type f e. e), refl, λ e. absurd (ground arith))
    | yes room ↦
        rw (lt→leb (length mr.modules) 64 room)
          (listed-Entered mr m (enter_all mr m.handlers) (enter_all-Entered mr m.handlers size))
  ]
