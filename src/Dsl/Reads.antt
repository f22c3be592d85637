-- ===== src/Dsl/Reads.antt =====
-- Which columns of yesterday a rule of backend/src/stk/domain/dsl/evaluate.py reads.
use stock_analyser.Prelude.{
  ℕ, suc, ◌≡◌, refl, ap, inl, inr, Bool, true, false, ◌&&◌, not, Option, none, some, List, [], ◌∷◌,
  ◌++◌, bind_same, Member-append, if◌then◌else◌, Member, Result, ok, ◌>>=◌, or_raise, >>=-eq-ok,
  ok-injective,
}
use stock_analyser.Dsl.{
  Operand, number, ind, param, arith_of, Op, op_gt, op_ge, op_lt, op_le, between, crosses_above,
  crosses_below, Right, single, pair, Cond, Node, Nodes, all_node, any_node, not_node, leaf, one,
  more, StrategySpec, Universe, Horizon,
}
use stock_analyser.Dsl.Cells.{Cell}
use stock_analyser.Dsl.Catalogue.{Column, column_for}
use stock_analyser.Dsl.Evaluate.{
  Row, Params, EvalError, unknown_indicator, cell_or_missing, as_series, column_value, eval_operand,
  eval_series, eval_cross, eval_right, eval_cond, eval_node, eval_all, eval_any, floor_mask,
  universe_mask, floor_column,
}
use stock_analyser.Dsl.Names
use stock_analyser.Decimal.{Decimal, of_nat}
use stock_analyser.Dsl.Params.{Defs, entry_mask}
use stock_analyser.Dsl.Validate.{
  Where, entry_at, Step, in_all, in_any, in_not, HorizonWindow, check_cond, cross_errors, is_plain,
  is_cross, walk, walk_all, error_if, cross_operand, validate_spec,
}
use stock_analyser.Dsl.Previous.{
  side_columns, right_columns, both_columns, prev_columns_needed, prev_columns_of,
}
use stock_analyser.Dsl.Typing.{append-nil}
use stock_analyser.Dsl.Conditions.{within, check_cond-nil}

-- The two rows have the same cells of yesterday in these columns.
abbrev pub Agree : Row → Row → List Column → Type 0
Agree row row' cols = (col : Column) → Member col cols → row.cell col true ≡ row'.cell col true

-- What two readers add, each one adds.
both_parts :
    (a b : Result EvalError (List Column)) (cols : List Column) (row row' : Row)
    → both_columns a b ≡ ok cols
    → Agree row row' cols
    → (xs : List Column) × (ys : List Column) × (a ≡ ok xs)
      × (b ≡ ok ys)
      × Agree row row' xs
      × Agree row row' ys
both_parts a b cols row row' e agree =
    let (xs, ex, rest) = >>=-eq-ok a _ e in
    let (ys, ey, last) = >>=-eq-ok b _ rest in
    let same = ok-injective _ _ last in
    (
      xs,
      ys,
      ex,
      ey,
      λ col m. agree col (rw (← same) (Member-append col xs ys (inl m))),
      λ col m. agree col (rw (← same) (Member-append col xs ys (inr m))),
    )

plain_sides :
    (a b : Bool) (at : Where)
    → error_if (not a) (cross_operand at) ++ error_if (not b) (cross_operand at) ≡ []
    → (a ≡ true) × (b ≡ true)
plain_sides true true at h = (refl, refl)
plain_sides false b at h = cc
plain_sides true false at h = cc

module _ (row row' : Row) (ps : Params)
    (now : (col : Column) → row.cell col false ≡ row'.cell col false) where
  ind-same :
      (found : Option Column) (prev : Bool)
      → ((col : Column) → found ≡ some col → row.cell col prev ≡ row'.cell col prev)
      → (or_raise found unknown_indicator >>= λ col.
          ok (column_value (cell_or_missing (row.cell col prev))))
        ≡ (or_raise found unknown_indicator >>= λ col.
            ok (column_value (cell_or_missing (row'.cell col prev))))
  ind-same none prev h = refl
  ind-same (some col) prev h = ap (λ c. ok (column_value (cell_or_missing c))) (h col refl)

  operand-now : (x : Operand) → eval_operand x row ps false ≡ eval_operand x row' ps false
  unfolding eval_operand
  operand-now (number d) = refl
  operand-now (param name) = refl
  operand-now (ind name period) = ind-same (column_for name period) false (λ col e. now col)
  operand-now (arith_of o x y) = rw (operand-now x, operand-now y) refl

  series-now : (x : Operand) → eval_series x row ps false ≡ eval_series x row' ps false
  unfolding eval_series
  series-now x = rw (operand-now x) refl

  series-prev :
      (x : Operand) (cols : List Column)
      → is_plain x ≡ true
      → side_columns x ≡ ok cols
      → Agree row row' cols
      → eval_series x row ps true ≡ eval_series x row' ps true
  unfolding eval_series eval_operand
  series-prev (number d) cols h e agree = refl
  series-prev (ind name period) cols h e agree =
      ap (λ run. run >>= λ v. ok (as_series v))
        (ind-same (column_for name period) true (λ col f.
          agree col (let one_col = ok-injective _ _ (rw f at e) in rw (← one_col) (inl refl))))
  series-prev (param name) cols h e agree = cc
  series-prev (arith_of o x y) cols h e agree = cc

  cross-same :
      (op : Op) (left right : Operand) (xs ys : List Column) (l r : Cell)
      → is_plain left ≡ true
      → is_plain right ≡ true
      → side_columns left ≡ ok xs
      → side_columns right ≡ ok ys
      → Agree row row' xs
      → Agree row row' ys
      → eval_cross op left right row ps l r ≡ eval_cross op left right row' ps l r
  unfolding eval_cross
  cross-same crosses_above left right xs ys l r hl hr el er al ar =
      rw (series-prev left xs hl el al, series-prev right ys hr er ar) refl
  cross-same crosses_below left right xs ys l r hl hr el er al ar =
      rw (series-prev left xs hl el al, series-prev right ys hr er ar) refl
  cross-same op_gt left right xs ys l r hl hr el er al ar = refl
  cross-same op_ge left right xs ys l r hl hr el er al ar = refl
  cross-same op_lt left right xs ys l r hl hr el er al ar = refl
  cross-same op_le left right xs ys l r hl hr el er al ar = refl
  cross-same between left right xs ys l r hl hr el er al ar = refl

  crossed-same :
      (op : Op) (left right : Operand) (l : Cell) (at : Where) (cols : List Column)
      → error_if (not (is_plain left)) (cross_operand at)
          ++ error_if (not (is_plain right)) (cross_operand at)
        ≡ []
      → both_columns (side_columns left) (side_columns right) ≡ ok cols
      → Agree row row' cols
      → (eval_series right row ps false >>= eval_cross op left right row ps l)
        ≡ (eval_series right row' ps false >>= eval_cross op left right row' ps l)
  crossed-same op left right l at cols h e agree =
      let (hl, hr) = plain_sides (is_plain left) (is_plain right) at h in
      let (xs, ys, ex, ey, ax, ay) = both_parts _ _ cols row row' e agree in
      bind_same _ _ _ _ (series-now right)
        (λ r. cross-same op left right xs ys l r hl hr ex ey ax ay)

  right-same :
      (op : Op) (left : Operand) (right : Right) (l : Cell) (at : Where) (cols : List Column)
      → cross_errors op left right at ≡ []
      → (if is_cross op then both_columns (side_columns left) (right_columns right) else ok [])
        ≡ ok cols
      → Agree row row' cols
      → eval_right op left right row ps l ≡ eval_right op left right row' ps l
  unfolding eval_right eval_cross
  right-same between left (pair lo hi) l at cols h e agree = rw (series-now lo, series-now hi) refl
  right-same between left (single r) l at cols h e agree = refl
  right-same op_gt left (single r) l at cols h e agree = rw (series-now r) refl
  right-same op_ge left (single r) l at cols h e agree = rw (series-now r) refl
  right-same op_lt left (single r) l at cols h e agree = rw (series-now r) refl
  right-same op_le left (single r) l at cols h e agree = rw (series-now r) refl
  right-same crosses_above left (single r) l at cols h e agree =
      crossed-same crosses_above left r l at cols h e agree
  right-same crosses_below left (single r) l at cols h e agree =
      crossed-same crosses_below left r l at cols h e agree
  right-same op_gt left (pair lo hi) l at cols h e agree = refl
  right-same op_ge left (pair lo hi) l at cols h e agree = refl
  right-same op_lt left (pair lo hi) l at cols h e agree = refl
  right-same op_le left (pair lo hi) l at cols h e agree = refl
  right-same crosses_above left (pair lo hi) l at cols h e agree = refl
  right-same crosses_below left (pair lo hi) l at cols h e agree = refl

  module _ (defs : Defs) where
    cond-same :
        (c : Cond) (at : Where) (cols : List Column)
        → check_cond c at defs ≡ []
        → prev_columns_needed (leaf c) ≡ ok cols
        → Agree row row' cols
        → eval_cond c row ps ≡ eval_cond c row' ps
    unfolding eval_cond prev_columns_needed
    cond-same c at cols h e agree =
        let (hl, hs, pl, pr, hr, hx) = check_cond-nil c at defs h in
        bind_same _ _ _ _ (series-now c.left)
          (λ l. right-same c.op c.left c.right l at cols hx e agree)

    mutual
      unfolding walk eval_node prev_columns_needed

      node-same :
          (n : Node) (depth : ℕ) (path : List Step) (cols : List Column)
          → (walk n defs depth path).0 ≡ []
          → prev_columns_needed n ≡ ok cols
          → Agree row row' cols
          → eval_node n row ps ≡ eval_node n row' ps
      node-same (all_node ns) depth path cols h e agree =
          (nodes-same ns in_all 0 (suc depth) path cols (within depth path _ h) e agree).0
      node-same (any_node ns) depth path cols h e agree =
          (nodes-same ns in_any 0 (suc depth) path cols (within depth path _ h) e agree).1
      node-same (not_node n) depth path cols h e agree =
          rw (node-same n (suc depth) (in_not ∷ path) cols (within depth path _ h) e agree) refl
      node-same (leaf c) depth path cols h e agree =
          cond-same c (entry_at path) cols (within depth path _ h) e agree

      nodes-same :
          (ns : Nodes) (step : ℕ → Step) (i depth : ℕ) (path : List Step) (cols : List Column)
          → (walk_all ns step i defs depth path).0 ≡ []
          → prev_columns_of ns ≡ ok cols
          → Agree row row' cols
          → (eval_all ns row ps ≡ eval_all ns row' ps) × (eval_any ns row ps ≡ eval_any ns row' ps)
      nodes-same (one n) step i depth path cols h e agree =
          let same = node-same n depth (step i ∷ path) cols h e agree in (same, same)
      nodes-same (more n ns) step i depth path cols h e agree =
          let (h0, h1) = append-nil _ _ h in
          let (xs, ys, ex, ey, ax, ay) = both_parts _ _ cols row row' e agree in
          let first = node-same n depth (step i ∷ path) xs h0 ex ax in
          let rest = nodes-same ns step (suc i) depth path ys h1 ey ay in
          (rw (first, rest.0) refl, rw (first, rest.1) refl)

floor-same :
    (row row' : Row) (now : (col : Column) → row.cell col false ≡ row'.cell col false)
    (col : Column) (bound : Decimal)
    → floor_mask col bound row ≡ floor_mask col bound row'
unfolding floor_mask
floor-same row row' now col bound = rw (now col) refl

universe-same :
    (u : Universe) (row row' : Row)
    → ((col : Column) → row.cell col false ≡ row'.cell col false)
    → row.series ≡ row'.series
    → universe_mask u row ≡ universe_mask u row'
unfolding universe_mask
universe-same u row row' now same =
    rw
      (
        floor-same row row' now (floor_column Names.close_raw none) u.min_price_raw,
        floor-same row row' now (floor_column Names.turnover_med (some 20))
            u.min_median_turnover_inr,
        floor-same row row' now (floor_column Names.bar_count none) (of_nat u.min_listed_days),
        same,
      )
      refl

-- The columns that `prev_columns_needed` names are all of yesterday that a rule reads: for a
-- specification without errors, two rows with the same series, the same cells of today and the same
-- cells of yesterday in those columns have the same entry mask, errors included.
pub entry_mask_reads :
    (spec : StrategySpec) (horizons : Horizon → Option HorizonWindow) (row row' : Row)
    (overrides : Params) (cols : List Column)
    → validate_spec spec horizons ≡ []
    → prev_columns_needed spec.entry ≡ ok cols
    → ((col : Column) → row.cell col false ≡ row'.cell col false)
    → row.series ≡ row'.series
    → Agree row row' cols
    → entry_mask spec row overrides ≡ entry_mask spec row' overrides
unfolding validate_spec entry_mask
entry_mask_reads spec horizons row row' overrides cols valid e now same agree =
    let (hw, _) = append-nil _ _ valid in
    bind_same _ _ _ _ refl (λ ps.
      bind_same _ _ _ _ (universe-same spec.universe row row' now same) (λ u.
        ap (λ run. run >>= λ b. ok (u && b))
          (node-same row row' ps now spec.params spec.entry 1 [] cols hw e agree)))
