-- ===== src/Tests/Dsl.antt =====
-- Examples for the strategy language.
use stock_analyser.Prelude.{
  ℕ, ◌≡◌, refl, ◌⊎◌, inl, inr, ◌≤◌, Bool, true, false, ◌==◌, Option, none, some, List, [], ◌∷◌,
  length, Bool-cases, ok, err, if◌then◌else◌,
}
use stock_analyser.Decimal.{of_nat, zero_d, ltd, led, eqd, ◌*d◌}
use stock_analyser.Dsl.{
  Operand, number, ind, param, arith_of, op_mul, op_gt, op_lt, crosses_above, single, Node,
  all_node, not_node, leaf, one, more, pct_stop, ParamDef, StrategySpec, Horizon, short_term,
}
use stock_analyser.Dsl.Names
use stock_analyser.Dsl.Cells.{missing, fin, lt_cell, le_cell, mul_cell}
use stock_analyser.Dsl.Catalogue.{Column, column_for, find_indicator}
use stock_analyser.Dsl.Evaluate.{
  Row, zero_division, eval_node, eval_cond, eval_series, eval_operand, eval_right, eval_cross,
  universe_mask, floor_mask, param_value, arith_value,
}
use stock_analyser.Dsl.Params.{
  entry_mask, resolve_params, override, defaults, assign, is_defined, param_combinations,
}
use stock_analyser.Dsl.Validate.{
  HorizonWindow, validate_spec, walk, check_cond, operand_kind, ind_error, arith_kind, check_params,
  right_errors, rule_errors, window_errors, rank_errors, grid_errors, combos,
}
use stock_analyser.Dsl.Typing.{node_divides_columns}
use stock_analyser.Dsl.Soundness.{entry_mask_typed}
use stock_analyser.Dsl.Poorer.{IsPoorerRow}
use stock_analyser.Dsl.Missing.{entry_mask_monotone, is_plain_node}
use stock_analyser.Dsl.Negation.{missing_fires_under_not}
use stock_analyser.Dsl.Previous.{prev_columns_needed}
use stock_analyser.Dsl.Reads.{entry_mask_reads, Agree}
use stock_analyser.Dsl.Limits.{validate_spec_limits, count_leaves, nesting}

abbrev rsi : Operand
rsi = ind Names.rsi (some 14)

abbrev close_price : Operand
close_price = ind Names.close none

-- RSI crosses above 40, the close is above 9 times EMA 20 over 10, and RSI is below the parameter.
abbrev rules : Node
rules = all_node (
    more (leaf (record { left = rsi; op = crosses_above; right = single (number (of_nat 40)) })) (
      more
        (leaf (record {
          left = close_price;
          op = op_gt;
          right = single (
              arith_of op_mul (number (record { up = 9; down = 0; den_pred = 9 }))
                (ind Names.ema (some 20)));
        }))
        (one (leaf (record { left = rsi; op = op_lt; right = single (param 1) })))))

abbrev limits : List (ℕ × ParamDef)
limits = (1, record { default = of_nat 70; grid = of_nat 60 ∷ of_nat 70 ∷ [] }) ∷ []

abbrev spec : StrategySpec
spec = record {
  slug = 1;
  name = 2;
  horizon = short_term;
  universe = record {
    min_price_raw = of_nat 10;
    min_median_turnover_inr = zero_d;
    min_listed_days = 0;
    exclude_series = 7 ∷ [];
  };
  params = limits;
  entry = rules;
  exit = record {
    stop = some (record {
      stop_type = pct_stop;
      mult = none;
      value = some (record { up = 5; down = 0; den_pred = 99 });
    });
    target = none;
    max_hold_days = 10;
  };
  rank = none;
  max_positions = 5;
  notes = 0;
}

abbrev horizons : Horizon → Option HorizonWindow
horizons h = some (record { hold_days_min = 1; hold_days_max = 20 })

-- Every indicator is 50 today, and was 30 the day before.
abbrev a_row : Row
a_row = record {
  cell = λ col prev. some (if prev then fin (of_nat 30) else fin (of_nat 50));
  series = some 3;
}

-- Yesterday is not known.
abbrev first_row : Row
first_row = record {
  cell = λ col prev. some (if prev then missing else fin (of_nat 50));
  series = some 3;
}

-- Yesterday is known for the RSI only.
abbrev other_row : Row
other_row = record {
  cell = λ col prev. some (
      if prev
      then (if col.base == Names.rsi then fin (of_nat 30) else missing)
      else fin (of_nat 50));
  series = some 3;
}

spec_valid : validate_spec spec horizons ≡ []
unfolding validate_spec walk check_cond operand_kind ind_error arith_kind check_params right_errors
    rule_errors window_errors rank_errors grid_errors combos find_indicator is_defined ltd eqd
spec_valid = refl

entry_mask_typed_example :
    ((b : Bool) × (entry_mask spec a_row [] ≡ ok b))
    ⊎ ((entry_mask spec a_row [] ≡ err zero_division) × (node_divides_columns rules ≡ false))
entry_mask_typed_example = entry_mask_typed spec horizons a_row [] spec_valid tt (refl, refl, refl)

rules-plain : is_plain_node rules ≡ true
unfolding is_plain_node
rules-plain = refl

-- The high of the day is not known.
abbrev sparse_row : Row
sparse_row = record a_row {
  cell = λ col prev. if col.base == Names.high then some missing else a_row.cell col prev;
}

poorer : IsPoorerRow sparse_row a_row
poorer col prev = elim (Bool-cases (col.base == Names.high)) [
  | inl e ↦ inl (rw e refl)
  | inr e ↦ inr (rw e refl)
]

sparse_fires : entry_mask spec sparse_row [] ≡ ok true
unfolding entry_mask resolve_params override defaults assign is_defined universe_mask floor_mask
    eval_node eval_cond eval_series eval_operand eval_right eval_cross param_value arith_value
    column_for find_indicator lt_cell le_cell mul_cell ltd led ◌*d◌
sparse_fires = refl

entry_mask_monotone_example : entry_mask spec a_row [] ≡ ok true
entry_mask_monotone_example =
    entry_mask_monotone spec sparse_row a_row [] rules-plain poorer (refl, refl, refl) refl
      sparse_fires

abbrev rsi_column : Column
rsi_column = record { base = Names.rsi; period = some 14 }

needed : prev_columns_needed rules ≡ ok (rsi_column ∷ [])
unfolding prev_columns_needed column_for find_indicator
needed = refl

agreed : Agree a_row other_row (rsi_column ∷ [])
agreed col (inl e) = rw e refl
agreed col (inr m) = absurd m

entry_mask_reads_example : entry_mask spec a_row [] ≡ entry_mask spec other_row []
entry_mask_reads_example =
    entry_mask_reads spec horizons a_row other_row [] (rsi_column ∷ []) spec_valid needed
      (λ col. refl) refl agreed

reads_missing :
    eval_series rsi (record first_row { series = none; cell = λ col prev. none }) [] false
    ≡ ok missing
unfolding eval_series eval_operand column_for find_indicator
reads_missing = refl

reads_number :
    eval_series
      (number (of_nat 40))
      (record first_row { series = none; cell = λ col prev. none })
      []
      false
    ≡ ok (fin (of_nat 40))
unfolding eval_series eval_operand
reads_number = refl

missing_fires_under_not_example :
    (let row = record first_row { series = none; cell = λ col prev. none } in
      let c = leaf (record { left = rsi; op = op_gt; right = single (number (of_nat 40)) }) in
      (eval_node c row [] ≡ ok false) × (eval_node (not_node c) row [] ≡ ok true))
missing_fires_under_not_example =
    missing_fires_under_not op_gt rsi (number (of_nat 40))
      (record first_row { series = none; cell = λ col prev. none }) [] (fin (of_nat 40)) refl
      reads_missing reads_number

validate_spec_limits_example :
    (count_leaves rules ≤ 12) × (nesting rules ≤ 3) × (length (param_combinations limits) ≤ 16)
validate_spec_limits_example = validate_spec_limits spec horizons spec_valid
