-- ===== src/Dsl/Evaluate.antt =====
-- backend/src/stk/domain/dsl/evaluate.py, on one row of the frame: every operation there works on
-- each row by itself. A column that the frame lacks has no cell; a value is a number or a column.
use stock_analyser.Prelude.{
  ℕ, Bool, true, false, ◌&&◌, ◌||◌, not, if◌then◌else◌, ◌==◌, Option, none, some, List, [], ◌∷◌,
  contains, Result, ok, err, ◌>>=◌, or_raise,
}
use stock_analyser.Decimal.{Decimal, zero_d, of_nat, ◌+d◌, ◌-d◌, ◌*d◌, eqd, ltd, quotient}
use stock_analyser.Dsl.{
  Operand, number, ind, param, arith_of, Arith, op_mul, op_add, op_sub, op_div, Op, op_gt, op_ge,
  op_lt, op_le, between, crosses_above, crosses_below, Right, single, pair, Cond, Node, Nodes,
  all_node, any_node, not_node, leaf, one, more, Universe,
}
use stock_analyser.Dsl.Names
use stock_analyser.Dsl.Catalogue.{Column, column_for}
use stock_analyser.Dsl.Cells.{
  Cell, missing, fin, mul_cell, add_cell, sub_cell, div_cell, replace_zero, lt_cell, le_cell,
}

-- `cell` by column and by whether it is the column with the suffix `__prev`; `series` is the text
-- column of that name.
pub record Row : Type 0 where
  pub cell : Column → Bool → Option Cell
  pub series : Option ℕ

-- The exceptions: a `KeyError` of the catalogue, of the parameters or of the frame, a division of
-- two numbers by 0, and an assertion on the right side.
pub data EvalError : Type 0 where
  unknown_indicator unknown_param missing_column zero_division bad_right : EvalError

pub data Value : Type 0 where
  scalar : Decimal → Value
  column_value : Cell → Value

abbrev pub Params : Type 0
Params = List (ℕ × Decimal)

-- `params[name]`
unfoldable pub param_value : Params → ℕ → Option Decimal
param_value [] name = none
param_value ((n, v) ∷ rest) name =
    let later = param_value rest name in if n == name then some v else later

abbrev pub cell_or_missing : Option Cell → Cell
cell_or_missing none = missing
cell_or_missing (some c) = c

-- `_as_series`
abbrev pub as_series : Value → Cell
as_series (scalar d) = fin d
as_series (column_value c) = c

abbrev pub arith_scalars : Arith → Decimal → Decimal → Result EvalError Value
arith_scalars op_mul a b = ok (scalar (a *d b))
arith_scalars op_add a b = ok (scalar (a +d b))
arith_scalars op_sub a b = ok (scalar (a -d b))
arith_scalars op_div a b = if eqd b zero_d then err zero_division else ok (scalar (quotient a b))

abbrev pub arith_cells : Arith → Cell → Cell → Cell
arith_cells op_mul a b = mul_cell a b
arith_cells op_add a b = add_cell a b
arith_cells op_sub a b = sub_cell a b
arith_cells op_div a b = div_cell a b

-- A divisor that is a column has its zeros replaced.
abbrev pub divisor : Arith → Cell → Cell
divisor op_div b = replace_zero b
divisor o b = b

-- `_arith`
unfoldable pub arith_value : Arith → Value → Value → Result EvalError Value
unfolding mul_cell add_cell sub_cell div_cell replace_zero quotient
arith_value o (scalar a) (scalar b) = arith_scalars o a b
arith_value o (column_value a) (scalar b) = ok (column_value (arith_cells o a (fin b)))
arith_value o (scalar a) (column_value b) = ok (column_value (arith_cells o (fin a) (divisor o b)))
arith_value o (column_value a) (column_value b) = ok (column_value (arith_cells o a (divisor o b)))

unfoldable pub eval_operand : Operand → Row → Params → Bool → Result EvalError Value
unfolding arith_value param_value column_for
eval_operand (number d) row ps prev = ok (scalar d)
eval_operand (param name) row ps prev = do
  v ← or_raise (param_value ps name) unknown_param
  ok (scalar v)
eval_operand (ind name period) row ps prev = do
  col ← or_raise (column_for name period) unknown_indicator
  ok (column_value (cell_or_missing (row.cell col prev)))
eval_operand (arith_of o x y) row ps prev = do
  a ← eval_operand x row ps prev
  b ← eval_operand y row ps prev
  arith_value o a b

-- The comparison of one condition, of today's two values and of yesterday's for a cross.
abbrev pub compare_op : Op → Cell → Cell → Bool
compare_op op_gt l r = lt_cell r l
compare_op op_ge l r = le_cell r l
compare_op op_lt l r = lt_cell l r
compare_op op_le l r = le_cell l r
compare_op _ l r = false

unfoldable pub eval_series : Operand → Row → Params → Bool → Result EvalError Cell
unfolding eval_operand
eval_series x row ps prev = do v ← eval_operand x row ps prev; ok (as_series v)

-- A cross, after today's values: yesterday's stand on the other side, or level.
unfoldable pub eval_cross :
    Op → Operand → Operand → Row → Params → Cell → Cell → Result EvalError Bool
unfolding eval_series lt_cell le_cell
eval_cross crosses_above left right row ps l r = do
  l' ← eval_series left row ps true
  r' ← eval_series right row ps true
  ok (lt_cell r l && le_cell l' r')
eval_cross crosses_below left right row ps l r = do
  l' ← eval_series left row ps true
  r' ← eval_series right row ps true
  ok (lt_cell l r && le_cell r' l')
eval_cross op left right row ps l r = ok (compare_op op l r)

-- `_eval_cond` after the left side.
unfoldable pub eval_right : Op → Operand → Right → Row → Params → Cell → Result EvalError Bool
unfolding eval_series eval_cross le_cell
eval_right between left (pair lo hi) row ps l = do
  a ← eval_series lo row ps false
  b ← eval_series hi row ps false
  ok (le_cell a l && le_cell l b)
eval_right between left (single right) row ps l = err bad_right
eval_right op left (pair lo hi) row ps l = err bad_right
eval_right op left (single right) row ps l = do
  r ← eval_series right row ps false
  eval_cross op left right row ps l r

unfoldable pub eval_cond : Cond → Row → Params → Result EvalError Bool
unfolding eval_series eval_right
eval_cond c row ps = do l ← eval_series c.left row ps false; eval_right c.op c.left c.right row ps l

-- Every child is evaluated, whatever the others gave.
unfoldable mutual
  unfolding eval_cond

  pub eval_node : Node → Row → Params → Result EvalError Bool
  eval_node (all_node ns) row ps = eval_all ns row ps
  eval_node (any_node ns) row ps = eval_any ns row ps
  eval_node (not_node n) row ps = do b ← eval_node n row ps; ok (not b)
  eval_node (leaf c) row ps = eval_cond c row ps

  pub eval_all : Nodes → Row → Params → Result EvalError Bool
  eval_all (one n) row ps = eval_node n row ps
  eval_all (more n ns) row ps = do b ← eval_node n row ps; bs ← eval_all ns row ps; ok (b && bs)

  pub eval_any : Nodes → Row → Params → Result EvalError Bool
  eval_any (one n) row ps = eval_node n row ps
  eval_any (more n ns) row ps = do b ← eval_node n row ps; bs ← eval_any ns row ps; ok (b || bs)

abbrev pub floor_column : ℕ → Option ℕ → Column
floor_column name period = record { base = name; period = period }

-- One floor of `universe_mask`: without a positive bound the column is not read.
unfoldable pub floor_mask : Column → Decimal → Row → Result EvalError Bool
unfolding le_cell
floor_mask col bound row =
    if ltd zero_d bound
    then (do c ← or_raise (row.cell col false) missing_column; ok (le_cell (fin bound) c))
    else ok true

abbrev pub series_mask : List ℕ → Option ℕ → Bool
series_mask excluded none = true
series_mask excluded (some s) = not (contains s excluded)

unfoldable pub universe_mask : Universe → Row → Result EvalError Bool
unfolding floor_mask
universe_mask u row = do
  a ← floor_mask (floor_column Names.close_raw none) u.min_price_raw row
  b ← floor_mask (floor_column Names.turnover_med (some 20)) u.min_median_turnover_inr row
  c ← floor_mask (floor_column Names.bar_count none) (of_nat u.min_listed_days) row
  ok (a && b && c && series_mask u.exclude_series row.series)
