-- ===== src/Dsl/Missing.antt =====
-- Missing data in backend/src/stk/domain/dsl/evaluate.py: "as a condition that does not fire, never
-- as a silently-true one".
use stock_analyser.Prelude.{
  ◌≡◌, refl, inl, inr, Bool, true, false, ◌&&◌, Option, none, some, arith, Bool-cases, Result, ok,
  err, ◌>>=◌, or_raise, ap, ◌∙◌, is_some, >>=-eq-ok, ok-injective,
}
use stock_analyser.Dsl.{
  Operand, number, ind, param, arith_of, Op, op_gt, op_ge, op_lt, op_le, between, crosses_above,
  crosses_below, Right, single, pair, Node, Nodes, all_node, any_node, not_node, leaf, one, more,
}
use stock_analyser.Dsl.Cells.{Cell, fin, le_cell}
use stock_analyser.Decimal.{Decimal, zero_d, ltd, of_nat}
use stock_analyser.Dsl.Catalogue.{Column, column_for}
use stock_analyser.Dsl.Evaluate.{
  Row, Params, EvalError, unknown_indicator, unknown_param, missing_column, scalar, column_value,
  cell_or_missing, series_mask, param_value, eval_operand, eval_series, eval_cross, eval_right,
  eval_cond, eval_node, eval_all, eval_any, floor_mask, universe_mask,
}
use stock_analyser.Dsl.{Universe, StrategySpec}
use stock_analyser.Dsl.Params.{entry_mask, resolve_params}
use stock_analyser.Dsl.Soundness.{HasFloors}
use stock_analyser.Dsl.Poorer.{
  IsPoorer, IsPoorerRow, and_map, or_map, and_split, Related, Related-bind, PoorerValue, Implies,
  arith_value-Related, as_series-IsPoorer, lt_cell-IsPoorer, le_cell-IsPoorer,
}

-- No condition of the node stands under a `not`.
unfoldable mutual
  pub is_plain_node : Node → Bool
  is_plain_node (all_node ns) = are_plain_nodes ns
  is_plain_node (any_node ns) = are_plain_nodes ns
  is_plain_node (not_node n) = false
  is_plain_node (leaf c) = true

  pub are_plain_nodes : Nodes → Bool
  are_plain_nodes (one n) = is_plain_node n
  are_plain_nodes (more n ns) = is_plain_node n && are_plain_nodes ns

module _ (row row' : Row) (poorer : IsPoorerRow row row') (ps : Params) where
  column-Related :
      (found : Option Column) (prev : Bool)
      → Related PoorerValue
          (or_raise found unknown_indicator >>= λ col.
            ok (column_value (cell_or_missing (row.cell col prev))))
          (or_raise found unknown_indicator >>= λ col.
            ok (column_value (cell_or_missing (row'.cell col prev))))
  column-Related none prev = refl
  column-Related (some col) prev = poorer col prev

  param-Related :
      (found : Option Decimal)
      → Related PoorerValue
          (or_raise found unknown_param >>= λ v. ok (scalar v))
          (or_raise found unknown_param >>= λ v. ok (scalar v))
  param-Related none = refl
  param-Related (some v) = refl

  eval_operand-Related :
      (x : Operand) (prev : Bool)
      → Related PoorerValue (eval_operand x row ps prev) (eval_operand x row' ps prev)
  unfolding eval_operand
  eval_operand-Related (number d) prev = refl
  eval_operand-Related (param name) prev = param-Related (param_value ps name)
  eval_operand-Related (ind name period) prev = column-Related (column_for name period) prev
  eval_operand-Related (arith_of o x y) prev =
      Related-bind PoorerValue PoorerValue _ _ _ _ (eval_operand-Related x prev) (λ a a' h.
        Related-bind PoorerValue PoorerValue _ _ _ _ (eval_operand-Related y prev)
          (λ b b' k. arith_value-Related o a a' b b' h k))

  series-Related :
      (x : Operand) (prev : Bool)
      → Related IsPoorer (eval_series x row ps prev) (eval_series x row' ps prev)
  unfolding eval_series
  series-Related x prev =
      Related-bind PoorerValue IsPoorer _ _ _ _ (eval_operand-Related x prev) as_series-IsPoorer

  pair-Related :
      (x y : Operand) (prev : Bool) (f f' : Cell → Cell → Bool)
      → ((a a' b b' : Cell) → IsPoorer a a' → IsPoorer b b' → Implies (f a b) (f' a' b'))
      → Related Implies
          (eval_series x row ps prev >>= λ a. eval_series y row ps prev >>= λ b. ok (f a b))
          (eval_series x row' ps prev >>= λ a. eval_series y row' ps prev >>= λ b. ok (f' a b))
  pair-Related x y prev f f' mono =
      Related-bind IsPoorer Implies _ _ _ _ (series-Related x prev) (λ a a' h.
        Related-bind IsPoorer Implies _ _ _ _ (series-Related y prev)
          (λ b b' k. mono a a' b b' h k))

  cross-Related :
      (op : Op) (left right : Operand) (l l' r r' : Cell)
      → IsPoorer l l'
      → IsPoorer r r'
      → Related Implies
          (eval_cross op left right row ps l r)
          (eval_cross op left right row' ps l' r')
  unfolding eval_cross
  cross-Related crosses_above left right l l' r r' h k =
      pair-Related left right true _ _ (λ a a' b b' p q t.
        and_map (lt_cell-IsPoorer r r' l l' k h) (le_cell-IsPoorer a a' b b' p q) t)
  cross-Related crosses_below left right l l' r r' h k =
      pair-Related left right true _ _ (λ a a' b b' p q t.
        and_map (lt_cell-IsPoorer l l' r r' h k) (le_cell-IsPoorer b b' a a' q p) t)
  cross-Related op_gt left right l l' r r' h k = lt_cell-IsPoorer r r' l l' k h
  cross-Related op_ge left right l l' r r' h k = le_cell-IsPoorer r r' l l' k h
  cross-Related op_lt left right l l' r r' h k = lt_cell-IsPoorer l l' r r' h k
  cross-Related op_le left right l l' r r' h k = le_cell-IsPoorer l l' r r' h k
  cross-Related between left right l l' r r' h k = λ bad. cc

  single-Related :
      (op : Op) (left right : Operand) (l l' : Cell)
      → IsPoorer l l'
      → Related Implies
          (eval_series right row ps false >>= eval_cross op left right row ps l)
          (eval_series right row' ps false >>= eval_cross op left right row' ps l')
  single-Related op left right l l' h =
      Related-bind IsPoorer Implies _ _ _ _ (series-Related right false)
        (λ r r' k. cross-Related op left right l l' r r' h k)

  right-Related :
      (op : Op) (left : Operand) (right : Right) (l l' : Cell)
      → IsPoorer l l'
      → Related Implies (eval_right op left right row ps l) (eval_right op left right row' ps l')
  unfolding eval_right
  right-Related between left (pair lo hi) l l' h = pair-Related lo hi false _ _ (λ a a' b b' p q t.
      and_map (le_cell-IsPoorer a a' l l' p h) (le_cell-IsPoorer l l' b b' h q) t)
  right-Related between left (single r) l l' h = refl
  right-Related op_gt left (single r) l l' h = single-Related op_gt left r l l' h
  right-Related op_ge left (single r) l l' h = single-Related op_ge left r l l' h
  right-Related op_lt left (single r) l l' h = single-Related op_lt left r l l' h
  right-Related op_le left (single r) l l' h = single-Related op_le left r l l' h
  right-Related crosses_above left (single r) l l' h = single-Related crosses_above left r l l' h
  right-Related crosses_below left (single r) l l' h = single-Related crosses_below left r l l' h
  right-Related op_gt left (pair lo hi) l l' h = refl
  right-Related op_ge left (pair lo hi) l l' h = refl
  right-Related op_lt left (pair lo hi) l l' h = refl
  right-Related op_le left (pair lo hi) l l' h = refl
  right-Related crosses_above left (pair lo hi) l l' h = refl
  right-Related crosses_below left (pair lo hi) l l' h = refl

  mutual
    unfolding eval_node eval_cond is_plain_node

    node-Related :
        (n : Node)
        → is_plain_node n ≡ true
        → Related Implies (eval_node n row ps) (eval_node n row' ps)
    node-Related (all_node ns) h = all-Related ns h
    node-Related (any_node ns) h = any-Related ns h
    node-Related (not_node n) h = cc
    node-Related (leaf c) h =
        Related-bind IsPoorer Implies _ _ _ _ (series-Related c.left false)
          (λ l l' k. right-Related c.op c.left c.right l l' k)

    all-Related :
        (ns : Nodes)
        → are_plain_nodes ns ≡ true
        → Related Implies (eval_all ns row ps) (eval_all ns row' ps)
    all-Related (one n) h = node-Related n h
    all-Related (more n ns) h =
        let (hn, hs) = and_split h in
        Related-bind Implies Implies _ _ _ _ (node-Related n hn) (λ b b' p.
          Related-bind Implies Implies _ _ _ _ (all-Related ns hs) (λ c c' q. and_map p q))

    any-Related :
        (ns : Nodes)
        → are_plain_nodes ns ≡ true
        → Related Implies (eval_any ns row ps) (eval_any ns row' ps)
    any-Related (one n) h = node-Related n h
    any-Related (more n ns) h =
        let (hn, hs) = and_split h in
        Related-bind Implies Implies _ _ _ _ (node-Related n hn) (λ b b' p.
          Related-bind Implies Implies _ _ _ _ (any-Related ns hs) (λ c c' q. or_map p q))

floor_cells-Related :
    (o o' : Option Cell) (bound : Decimal)
    → IsPoorer (cell_or_missing o) (cell_or_missing o')
    → is_some o' ≡ true
    → (or_raise o missing_column >>= λ c. ok (le_cell (fin bound) c)) ≡ ok true
    → (or_raise o' missing_column >>= λ c. ok (le_cell (fin bound) c)) ≡ ok true
floor_cells-Related (some c) (some c') bound p h t =
    ap ok (le_cell-IsPoorer (fin bound) (fin bound) c c' (inr refl) p (ok-injective _ _ t))
floor_cells-Related none o' bound p h t = cc
floor_cells-Related (some c) none bound p h t = cc

floor_mask-Related :
    (col : Column) (bound : Decimal) (row row' : Row)
    → IsPoorerRow row row'
    → is_some (row'.cell col false) ≡ true
    → floor_mask col bound row ≡ ok true
    → floor_mask col bound row' ≡ ok true
unfolding floor_mask
floor_mask-Related col bound row row' poorer h t = elim (Bool-cases (ltd zero_d bound)) [
  | inl e ↦ rw e (
      floor_cells-Related (row.cell col false) (row'.cell col false) bound (poorer col false) h
        (rw e at t))
  | inr e ↦ rw e refl
]

and_four :
    (a b c d : Bool) → a && b && c && d ≡ true → (a ≡ true) × (b ≡ true) × (c ≡ true) × (d ≡ true)
and_four a b c d h = ground arith

Related-ok :
    (run run' : Result EvalError Bool) (value : Bool)
    → Related Implies run run'
    → run ≡ ok value
    → (b' : Bool) × (run' ≡ ok b') × (value ≡ true → b' ≡ true)
Related-ok (ok b) (ok b') value h e = (b', refl, λ t. h (ok-injective _ _ e ∙ t))
Related-ok (ok b) (err f) value h e = elim h [ ]
Related-ok (err f) run' value h e = cc

universe_mask-Related :
    (u : Universe) (row row' : Row)
    → IsPoorerRow row row'
    → HasFloors row'
    → row.series ≡ row'.series
    → universe_mask u row ≡ ok true
    → universe_mask u row' ≡ ok true
unfolding universe_mask
universe_mask-Related u row row' poorer (h0, h1, h2) same t =
    let (a, ea, t1) = >>=-eq-ok (floor_mask _ u.min_price_raw row) _ t in
    let (b, eb, t2) = >>=-eq-ok (floor_mask _ u.min_median_turnover_inr row) _ t1 in
    let (c, ec, t3) = >>=-eq-ok (floor_mask _ (of_nat u.min_listed_days) row) _ t2 in
    let (ta, tb, tc, ts) =
      and_four a b c (series_mask u.exclude_series row.series) (ok-injective _ _ t3) in
    rw
      (
        floor_mask-Related _ u.min_price_raw row row' poorer h0 (rw ta at ea),
        floor_mask-Related _ u.min_median_turnover_inr row row' poorer h1 (rw tb at eb),
        floor_mask-Related _ (of_nat u.min_listed_days) row row' poorer h2 (rw tc at ec),
        ← same,
        ts,
      )
      refl

-- Missing data never makes an entry fire: where a rule without `not` matches a row, it matches
-- every row that has the same series and all of its cells that are not missing, whatever stands in
-- the others.
pub entry_mask_monotone :
    (spec : StrategySpec) (row row' : Row) (overrides : Params)
    → is_plain_node spec.entry ≡ true
    → IsPoorerRow row row'
    → HasFloors row'
    → row.series ≡ row'.series
    → entry_mask spec row overrides ≡ ok true
    → entry_mask spec row' overrides ≡ ok true
unfolding entry_mask
entry_mask_monotone spec row row' overrides plain poorer floors same t =
    let (ps, ep, t1) = >>=-eq-ok (resolve_params spec.params overrides) _ t in
    let (u, eu, t2) = >>=-eq-ok (universe_mask spec.universe row) _ t1 in
    let (b, eb, t3) = >>=-eq-ok (eval_node spec.entry row ps) _ t2 in
    let (tu, tb) = and_split {a = u} {b = b} (ok-injective _ _ t3) in
    let (b', eb', imp) =
      Related-ok _ (eval_node spec.entry row' ps) b
        (node-Related row row' poorer ps spec.entry plain) eb in
    rw
      (
        ep,
        universe_mask-Related spec.universe row row' poorer floors same (rw tu at eu),
        eb',
        imp tb,
      )
      refl
