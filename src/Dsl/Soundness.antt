-- ===== src/Dsl/Soundness.antt =====
-- The entry mask of backend/src/stk/domain/dsl/evaluate.py on what `validate_spec` lets pass.
use stock_analyser.Prelude.{
  ℕ, ◌≡◌, refl, ◌⊎◌, inl, inr, Bool, true, false, ◌&&◌, Option, none, some, [], ◌∷◌, arith,
  Bool-cases, ok, err, is_some,
}
use stock_analyser.Dsl.{Universe, StrategySpec, Horizon}
use stock_analyser.Dsl.Cells.{fin, le_cell}
use stock_analyser.Dsl.Names
use stock_analyser.Dsl.Catalogue.{Column}
use stock_analyser.Decimal.{Decimal, zero_d, ltd, of_nat}
use stock_analyser.Dsl.Evaluate.{
  Row, Params, zero_division, param_value, floor_mask, floor_column, universe_mask, series_mask,
}
use stock_analyser.Dsl.Params.{
  Defs, is_defined, assign, defaults, override, resolve_params, entry_mask,
}
use stock_analyser.Dsl.Validate.{HorizonWindow, validate_spec}
use stock_analyser.Dsl.Typing.{node_divides_columns, Outcome-map, Covers, append-nil}
use stock_analyser.Dsl.Conditions.{eval_node-Outcome}

is_some-some : {A : Type 0} (o : Option A) → is_some o ≡ true → (a : A) × (o ≡ some a)
is_some-some none h = cc
is_some-some (some a) h = (a, refl)

-- The overrides that `resolve_params` accepts name parameters of the specification.
abbrev pub AreDefined : Defs → Params → Type 0
AreDefined defs [] = Unit
AreDefined defs ((n, v) ∷ rest) = (is_defined defs n ≡ true) × AreDefined defs rest

param_value-assign :
    (ps : Params) (n : ℕ) (v : Decimal) (name : ℕ)
    → is_some (param_value ps name) ≡ true
    → is_some (param_value (assign ps n v) name) ≡ true
unfolding param_value assign
param_value-assign [] n v name h = h
param_value-assign ((k, w) ∷ rest) n v name h = ground (arith, param_value-assign rest n v name)

param_value-defaults :
    (defs : Defs) (name : ℕ)
    → is_defined defs name ≡ true
    → is_some (param_value (defaults defs) name) ≡ true
unfolding is_defined param_value defaults
param_value-defaults [] name h = cc
param_value-defaults ((k, p) ∷ rest) name h = ground (arith, param_value-defaults rest name)

abbrev CoversAll : Defs → Params → Type 0
CoversAll defs ps = (name : ℕ) → is_defined defs name ≡ true → is_some (param_value ps name) ≡ true

override-Covers :
    (defs : Defs) (ps overrides : Params)
    → AreDefined defs overrides
    → CoversAll defs ps
    → (final : Params) × (override defs ps overrides ≡ ok final) × CoversAll defs final
unfolding override
override-Covers defs ps [] h k = (ps, refl, k)
override-Covers defs ps ((n, v) ∷ rest) (d, h) k = rw d (
    override-Covers defs (assign ps n v) rest h
      (λ name e. param_value-assign ps n v name (k name e)))

-- `resolve_params` gives every parameter a value.
pub resolve_params-Covers :
    (defs : Defs) (overrides : Params)
    → AreDefined defs overrides
    → (final : Params) × (resolve_params defs overrides ≡ ok final) × Covers defs final
unfolding resolve_params
resolve_params-Covers defs overrides h =
    let (final, e, k) =
      override-Covers defs (defaults defs) overrides h (param_value-defaults defs) in
    (final, e, λ name d. is_some-some (param_value final name) (k name d))

-- The columns that `universe_mask` reads without looking whether they are there.
abbrev pub HasFloors : Row → Type 0
HasFloors row =
    (is_some (row.cell (floor_column Names.close_raw none) false) ≡ true)
    × (is_some (row.cell (floor_column Names.turnover_med (some 20)) false) ≡ true)
    × (is_some (row.cell (floor_column Names.bar_count none) false) ≡ true)

floor_mask-ok :
    (col : Column) (bound : Decimal) (row : Row)
    → is_some (row.cell col false) ≡ true
    → (b : Bool) × (floor_mask col bound row ≡ ok b)
unfolding floor_mask
floor_mask-ok col bound row h =
    let (c, e) = is_some-some (row.cell col false) h in
    elim (Bool-cases (ltd zero_d bound)) [
      | inl t ↦ (le_cell (fin bound) c, rw (t, e) refl)
      | inr t ↦ (true, rw t refl)
    ]

universe_mask-ok :
    (u : Universe) (row : Row) → HasFloors row → (b : Bool) × (universe_mask u row ≡ ok b)
unfolding universe_mask
universe_mask-ok u row (h0, h1, h2) =
    let (a, ea) = floor_mask-ok _ u.min_price_raw row h0 in
    let (b, eb) = floor_mask-ok _ u.min_median_turnover_inr row h1 in
    let (c, ec) = floor_mask-ok _ (of_nat u.min_listed_days) row h2 in
    (a && b && c && series_mask u.exclude_series row.series, rw (ea, eb, ec) refl)

-- A specification without errors never makes the interpreter raise a `KeyError` or fail an
-- assertion: where the overrides name its parameters and the frame has the columns of the
-- universe's floors, the entry mask has a value on every row, or two numbers are divided by 0; and
-- the latter only where some division of the entry has no indicator on either side.
pub entry_mask_typed :
    (spec : StrategySpec) (horizons : Horizon → Option HorizonWindow) (row : Row)
    (overrides : Params)
    → validate_spec spec horizons ≡ []
    → AreDefined spec.params overrides
    → HasFloors row
    → ((b : Bool) × (entry_mask spec row overrides ≡ ok b))
      ⊎ ((entry_mask spec row overrides ≡ err zero_division)
          × (node_divides_columns spec.entry ≡ false))
unfolding validate_spec entry_mask
entry_mask_typed spec horizons row overrides valid known floors =
    let (ps, ep, covered) = resolve_params-Covers spec.params overrides known in
    let (u, eu) = universe_mask-ok spec.universe row floors in
    let (hw, _) = append-nil _ _ valid in
    rw (ep, eu)
      (Outcome-map _ _ (λ e. u && e)
        (eval_node-Outcome row spec.params ps covered spec.entry 1 [] hw))
