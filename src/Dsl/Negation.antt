-- ===== src/Dsl/Negation.antt =====
-- Missing data under the `not` of backend/src/stk/domain/dsl/evaluate.py.
use stock_analyser.Prelude.{◌≡◌, refl, Bool, true, false, ok, ◌>>=◌}
use stock_analyser.Dsl.{
  Operand, Op, op_gt, op_ge, op_lt, op_le, between, crosses_above, crosses_below, single, not_node,
  leaf,
}
use stock_analyser.Dsl.Cells.{Cell, missing, lt_cell, le_cell}
use stock_analyser.Dsl.Evaluate.{
  Row, Params, eval_series, eval_cross, compare_op, eval_right, eval_cond, eval_node,
}
use stock_analyser.Dsl.Poorer.{compare-missing}

abbrev pub is_comparison : Op → Bool
is_comparison op_gt = true
is_comparison op_ge = true
is_comparison op_lt = true
is_comparison op_le = true
is_comparison _ = false

compare_op-missing : (op : Op) (r : Cell) → compare_op op missing r ≡ false
unfolding lt_cell le_cell
compare_op-missing op_gt r = (compare-missing r).0
compare_op-missing op_ge r = (compare-missing r).1
compare_op-missing op_lt r = refl
compare_op-missing op_le r = refl
compare_op-missing between r = refl
compare_op-missing crosses_above r = refl
compare_op-missing crosses_below r = refl

compared :
    (op : Op) (left right : Operand) (row : Row) (ps : Params) (l : Cell)
    → is_comparison op ≡ true
    → eval_right op left (single right) row ps l
      ≡ (eval_series right row ps false >>= λ r. ok (compare_op op l r))
unfolding eval_right eval_cross
compared op_gt left right row ps l h = refl
compared op_ge left right row ps l h = refl
compared op_lt left right row ps l h = refl
compared op_le left right row ps l h = refl
compared between left right row ps l h = cc
compared crosses_above left right row ps l h = cc
compared crosses_below left right row ps l h = cc

-- `not` turns missing data into a match: a comparison whose left side is missing is false whatever
-- its right side is, so that its negation is true.
pub missing_fires_under_not :
    (op : Op) (left right : Operand) (row : Row) (ps : Params) (r : Cell)
    → is_comparison op ≡ true
    → eval_series left row ps false ≡ ok missing
    → eval_series right row ps false ≡ ok r
    → (let c = leaf (record { left = left; op = op; right = single right }) in
        (eval_node c row ps ≡ ok false) × (eval_node (not_node c) row ps ≡ ok true))
unfolding eval_node eval_cond
missing_fires_under_not op left right row ps r h el er =
    rw (el, compared op left right row ps missing h, er, compare_op-missing op r) (refl, refl)
