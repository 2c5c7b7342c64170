-- ===== src/Module.antt =====
-- module.go: what `Module` registers with the container of the application. The calls of `fx` and
-- `fxutil` are data; what the container does with them is not modelled.
use cachefx.Prelude.{◌≡◌, refl, Bool, true, false, List, [], ◌∷◌, ◌++◌, if◌then◌else◌}

-- `moduleConfig`
pub record ModuleConfig : Type 0 where
  pub sweeps : Bool

-- `Option`
pub data ModuleOption : Type 0 where
  with_sweeper : ModuleOption

-- the options of `fx` that `Module` builds
pub data FxOption : Type 0 where
  decorate_logger : FxOption
  provide_factory : FxOption
  provide_sweeper : FxOption
  invoke_runnable : FxOption

unfoldable pub apply : ModuleOption → ModuleConfig → ModuleConfig
apply with_sweeper cfg = record cfg { sweeps = true }

-- the loop of `Module`
unfoldable pub apply_all : List ModuleOption → ModuleConfig → ModuleConfig
unfolding apply
apply_all [] cfg = cfg
apply_all (opt ∷ opts) cfg = apply_all opts (apply opt cfg)

-- `Module`
unfoldable pub fx_module : List ModuleOption → List FxOption
unfolding apply_all
fx_module opts =
    let cfg = apply_all opts (record { sweeps = false }) in
    let options = decorate_logger ∷ provide_factory ∷ [] in
    if cfg.sweeps then options ++ provide_sweeper ∷ invoke_runnable ∷ [] else options

swept_once :
    (opts : List ModuleOption)
    → apply_all opts (record { sweeps = true }) ≡ record { sweeps = true }
unfolding apply_all apply
swept_once [] = refl
swept_once (with_sweeper ∷ opts) = swept_once opts

-- Module always provides the factory; it provides and runs the sweeper, once and behind the factory,
-- exactly if there is an option.
pub fx_module_lem :
    (opts : List ModuleOption)
    → fx_module opts
      ≡ decorate_logger
        ∷ provide_factory
        ∷ elim opts [ [] ↦ [] | _ ∷ _ ↦ provide_sweeper ∷ invoke_runnable ∷ [] ]
unfolding fx_module apply_all apply
fx_module_lem [] = refl
fx_module_lem (with_sweeper ∷ opts) = rw swept_once refl
