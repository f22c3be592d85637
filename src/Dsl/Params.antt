-- ===== src/Dsl/Params.antt =====
-- The parameters of a strategy: `resolve_params` and `entry_mask` of
-- backend/src/stk/domain/dsl/evaluate.py, `param_combinations` of
-- backend/src/stk/domain/dsl/validate.py.
use stock_analyser.Prelude.{
  ℕ, Bool, ◌&&◌, if◌then◌else◌, ◌==◌, List, [], ◌∷◌, ◌++◌, map, not, Result, ok, ◌>>=◌, ◌>>◌,
  raise_if,
}
use stock_analyser.Decimal.{Decimal}
use stock_analyser.Dsl.{ParamDef, StrategySpec}
use stock_analyser.Dsl.Evaluate.{Row, Params, EvalError, unknown_param, eval_node, universe_mask}

abbrev pub Defs : Type 0
Defs = List (ℕ × ParamDef)

unfoldable pub is_defined : Defs → ℕ → Bool
is_defined [] name = Bool.false
is_defined ((n, _) ∷ rest) name =
    let later = is_defined rest name in if n == name then Bool.true else later

unfoldable pub defaults : Defs → Params
defaults [] = []
defaults ((n, p) ∷ rest) = (n, p.default) ∷ defaults rest

-- `resolved[name] = value` where the name is there.
unfoldable pub assign : Params → ℕ → Decimal → Params
assign [] name v = []
assign ((n, old) ∷ rest) name v = (n, if n == name then v else old) ∷ assign rest name v

-- The loop over the overrides.
unfoldable pub override : Defs → Params → Params → Result EvalError Params
unfolding is_defined assign
override defs resolved [] = ok resolved
override defs resolved ((n, v) ∷ rest) = do
  raise_if (not (is_defined defs n)) unknown_param
  override defs (assign resolved n v) rest

unfoldable pub resolve_params : Defs → Params → Result EvalError Params
unfolding override defaults
resolve_params defs overrides = override defs (defaults defs) overrides

unfoldable pub entry_mask : StrategySpec → Row → Params → Result EvalError Bool
unfolding resolve_params universe_mask eval_node
entry_mask spec row overrides = do
  resolved ← resolve_params spec.params overrides
  u ← universe_mask spec.universe row
  e ← eval_node spec.entry row resolved
  ok (u && e)

-- `p.grid or [p.default]`
abbrev pub grid_of : Decimal → List Decimal → List Decimal
grid_of default [] = default ∷ []
grid_of default (v ∷ vs) = v ∷ vs

-- One round of `product`: each value before each combination of the later parameters.
unfoldable pub prefix_all : ℕ → List Decimal → List Params → List Params
prefix_all n [] later = []
prefix_all n (v ∷ vs) later = map (λ ps. (n, v) ∷ ps) later ++ prefix_all n vs later

unfoldable pub param_combinations : Defs → List Params
unfolding prefix_all
param_combinations [] = [] ∷ []
param_combinations ((n, p) ∷ rest) =
    prefix_all n (grid_of p.default p.grid) (param_combinations rest)
