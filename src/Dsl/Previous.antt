-- ===== src/Dsl/Previous.antt =====
-- The columns of yesterday: `prev_columns_needed` and `add_prev_columns` of
-- backend/src/stk/domain/dsl/evaluate.py, the latter on the rows of one symbol in date order.
use stock_analyser.Prelude.{
  ℕ, zero, suc, ◌≡◌, refl, ap, Bool, true, false, ◌&&◌, Option, none, some, List, [], ◌∷◌, ◌++◌,
  any_of, take, if◌then◌else◌, ◌==◌, Result, ok, ◌>>=◌, or_raise, is_some,
}
use stock_analyser.Dsl.{
  Operand, ind, Right, single, pair, Node, Nodes, all_node, any_node, not_node, leaf, one, more,
}
use stock_analyser.Dsl.Cells.{Cell, missing}
use stock_analyser.Dsl.Catalogue.{Column, column_for}
use stock_analyser.Dsl.Evaluate.{Row, EvalError, unknown_indicator}
use stock_analyser.Dsl.Validate.{is_cross}

-- `if isinstance(side, Ind): needed.add(_column(side))`
abbrev pub side_columns : Operand → Result EvalError (List Column)
side_columns (ind name period) = do
  col ← or_raise (column_for name period) unknown_indicator
  ok (col ∷ [])
side_columns _ = ok []

abbrev pub right_columns : Right → Result EvalError (List Column)
right_columns (single r) = side_columns r
right_columns (pair lo hi) = ok []

abbrev pub both_columns :
    Result EvalError (List Column) → Result EvalError (List Column) → Result EvalError (List Column)
both_columns a b = a >>= λ xs. b >>= λ ys. ok (xs ++ ys)

-- A set as a list, in the order of the additions; a column may come twice.
unfoldable mutual
  unfolding column_for

  pub prev_columns_needed : Node → Result EvalError (List Column)
  prev_columns_needed (all_node ns) = prev_columns_of ns
  prev_columns_needed (any_node ns) = prev_columns_of ns
  prev_columns_needed (not_node n) = prev_columns_needed n
  prev_columns_needed (leaf c) =
      if is_cross c.op then both_columns (side_columns c.left) (right_columns c.right) else ok []

  pub prev_columns_of : Nodes → Result EvalError (List Column)
  prev_columns_of (one n) = prev_columns_needed n
  prev_columns_of (more n ns) = both_columns (prev_columns_needed n) (prev_columns_of ns)

abbrev pub same_period : Option ℕ → Option ℕ → Bool
same_period none none = true
same_period (some p) (some q) = p == q
same_period _ _ = false

abbrev pub is_column : Column → Column → Bool
is_column a b = a.base == b.base && same_period a.period b.period

abbrev pub shifted : Bool → Option Cell → Option Cell → Option Cell
shifted true before old = before
shifted false before old = old

abbrev pub previous_cell : Option Row → Column → Option Cell
previous_cell none col = some missing
previous_cell (some r) col = r.cell col false

-- The new columns of one row; `before` is the symbol's row before it, if any.
abbrev pub shift_row : List Column → Option Row → Row → Row
shift_row columns before row = record row {
  cell = λ col prev.
      shifted (prev && any_of (is_column col) columns && is_some (row.cell col false))
        (previous_cell before col) (row.cell col prev);
}

-- The loop of shifts over a symbol's rows.
unfoldable pub shift_rows : List Column → Option Row → List Row → List Row
shift_rows columns before [] = []
shift_rows columns before (r ∷ rs) = shift_row columns before r ∷ shift_rows columns (some r) rs

unfoldable pub add_prev_columns : List Column → List Row → List Row
unfolding shift_rows
add_prev_columns columns rows = shift_rows columns none rows

take-shift_rows :
    (columns : List Column) (n : ℕ) (before : Option Row) (rows : List Row)
    → take n (shift_rows columns before rows) ≡ shift_rows columns before (take n rows)
unfolding shift_rows
take-shift_rows columns zero before rows = refl
take-shift_rows columns (suc n) before [] = refl
take-shift_rows columns (suc n) before (r ∷ rs) =
    ap (λ rest. shift_row columns before r ∷ rest) (take-shift_rows columns n (some r) rs)

-- A strictly past shift: the first `n` rows get the same columns whatever rows come after them.
pub add_prev_columns_past :
    (columns : List Column) (n : ℕ) (rows : List Row)
    → take n (add_prev_columns columns rows) ≡ add_prev_columns columns (take n rows)
unfolding add_prev_columns
add_prev_columns_past columns n rows = take-shift_rows columns n none rows
