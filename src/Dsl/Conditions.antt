-- ===== src/Dsl/Conditions.antt =====
-- Conditions and nodes of backend/src/stk/domain/dsl/evaluate.py that `validate_spec` lets pass.
use stock_analyser.Prelude.{
  ℕ, suc, ◌≡◌, refl, inl, inr, Bool, true, false, ◌&&◌, ◌||◌, not, Option, List, [], ◌∷◌, ◌++◌,
  arith, ltb, Bool-cases, ok, ◌>>=◌,
}
use stock_analyser.Dsl.{
  Operand, Op, op_gt, op_ge, op_lt, op_le, between, crosses_above, crosses_below, Right, single,
  pair, Cond, Node, Nodes, all_node, any_node, not_node, leaf, one, more,
}
use stock_analyser.Dsl.Cells.{Cell}
use stock_analyser.Dsl.Evaluate.{
  Row, Params, as_series, eval_series, eval_cross, eval_right, eval_cond, eval_node, eval_all,
  eval_any,
}
use stock_analyser.Dsl.Params.{Defs}
use stock_analyser.Dsl.Validate.{
  Where, entry_at, in_all, in_any, in_not, too_deep, Errors, Step, operand_kind, check_params,
  right_errors, check_cond, walk, walk_all, max_depth, cross_errors, rights_errors, shape_errors,
  right_params,
}
use stock_analyser.Dsl.Typing.{
  divides_columns, right_divides_columns, node_divides_columns, nodes_divide_columns, Outcome,
  Outcome-bind, Outcome-map, Outcome-weaken, Covers, append-nil, eval_operand-Outcome,
}

-- An operand in which the validator finds nothing.
abbrev IsClean : Defs → Operand → Type 0
IsClean defs x =
    (at : Where) × (at' : Where) × ((operand_kind x at 0).0 ≡ []) × (check_params x at' defs ≡ [])

abbrev IsCleanRight : Defs → Right → Type 0
IsCleanRight defs (single r) = IsClean defs r
IsCleanRight defs (pair lo hi) = IsClean defs lo × IsClean defs hi

clean_right :
    (left : Operand) (lk : Option _) (r : Operand) (at : Where)
    → right_errors left lk r at ≡ []
    → (operand_kind r at 0).0 ≡ []
unfolding right_errors
clean_right left lk r at h = (append-nil _ _ h).0

clean_rights :
    (left : Operand) (lk : Option _) (r : Right) (at : Where) (defs : Defs)
    → right_params r at defs ≡ []
    → rights_errors left lk r at ≡ []
    → IsCleanRight defs r
clean_rights left lk (single r) at defs h k = (at, at, clean_right left lk r at k, h)
clean_rights left lk (pair lo hi) at defs h k =
    let (hl, hh) = append-nil _ _ h in
    let (kl, kh) = append-nil _ _ k in
    ((at, at, clean_right left lk lo at kl, hl), (at, at, clean_right left lk hi at kh, hh))

pub within :
    (depth : ℕ) (path : List Step) (found : Errors × ℕ)
    → (too_deep (ltb max_depth depth) path found).0 ≡ []
    → found.0 ≡ []
within depth path found h = elim (Bool-cases (ltb max_depth depth)) [
  | inl e ↦ let bad = rw e at h in cc
  | inr e ↦ rw e at h
]

-- Nothing found in a condition is nothing found in each of its parts.
pub check_cond-nil :
    (c : Cond) (at : Where) (defs : Defs)
    → check_cond c at defs ≡ []
    → (let lk = (operand_kind c.left at 0).1 in
        ((operand_kind c.left at 0).0 ≡ [])
        × (shape_errors c.op c.right at ≡ [])
        × (check_params c.left at defs ≡ [])
        × (right_params c.right at defs ≡ [])
        × (rights_errors c.left lk c.right at ≡ [])
        × (cross_errors c.op c.left c.right at ≡ []))
unfolding check_cond
check_cond-nil c at defs h =
    let (hl, h1) = append-nil _ _ h in
    let (hs, h2) = append-nil (shape_errors c.op c.right at) _ h1 in
    let (hp, h3) = append-nil (check_params c.left at defs ++ right_params c.right at defs) _ h2 in
    let (hr, hx) =
      append-nil (rights_errors c.left (operand_kind c.left at 0).1 c.right at)
        (cross_errors c.op c.left c.right at) h3 in
    let (pl, pr) = append-nil _ _ hp in (hl, hs, pl, pr, hr, hx)

module _ (row : Row) (defs : Defs) (ps : Params) (covered : Covers defs ps) where
  series-Outcome :
      (x : Operand) (prev : Bool)
      → IsClean defs x
      → Outcome (divides_columns x) (eval_series x row ps prev)
  unfolding eval_series
  series-Outcome x prev (at, at', h, k) =
      Outcome-map _ _ as_series (eval_operand-Outcome row defs ps covered x at at' 0 prev h k)

  -- Two operands, and what is made of their values.
  series_pair-Outcome :
      (x y : Operand) (prev : Bool) (f : Cell → Cell → Bool)
      → IsClean defs x
      → IsClean defs y
      → Outcome
          (divides_columns x && divides_columns y)
          (eval_series x row ps prev >>= λ a. eval_series y row ps prev >>= λ b. ok (f a b))
  series_pair-Outcome x y prev f hx hy =
      Outcome-bind _ _ _ _ (series-Outcome x prev hx)
        (λ a ea. Outcome-map _ _ (f a) (series-Outcome y prev hy))

  eval_cross-Outcome :
      (op : Op) (left right : Operand) (l r : Cell)
      → IsClean defs left
      → IsClean defs right
      → Outcome
          (divides_columns left && divides_columns right)
          (eval_cross op left right row ps l r)
  unfolding eval_cross
  eval_cross-Outcome crosses_above left right l r hl hr =
      series_pair-Outcome left right true _ hl hr
  eval_cross-Outcome crosses_below left right l r hl hr =
      series_pair-Outcome left right true _ hl hr
  eval_cross-Outcome op_gt left right l r hl hr = inl (_, refl)
  eval_cross-Outcome op_ge left right l r hl hr = inl (_, refl)
  eval_cross-Outcome op_lt left right l r hl hr = inl (_, refl)
  eval_cross-Outcome op_le left right l r hl hr = inl (_, refl)
  eval_cross-Outcome between left right l r hl hr = inl (_, refl)

  single-Outcome :
      (op : Op) (left right : Operand) (l : Cell)
      → IsClean defs left
      → IsClean defs right
      → Outcome
          (divides_columns left && divides_columns right)
          (eval_series right row ps false >>= eval_cross op left right row ps l)
  single-Outcome op left right l hl hr =
      Outcome-weaken (divides_columns right && (divides_columns left && divides_columns right)) _ _
        (λ q. ground arith)
        (Outcome-bind _ _ _ _ (series-Outcome right false hr)
          (λ r er. eval_cross-Outcome op left right l r hl hr))

  eval_right-Outcome :
      (op : Op) (left : Operand) (right : Right) (l : Cell) (at : Where)
      → shape_errors op right at ≡ []
      → IsClean defs left
      → IsCleanRight defs right
      → Outcome
          (divides_columns left && right_divides_columns right)
          (eval_right op left right row ps l)
  unfolding eval_right
  eval_right-Outcome between left (pair lo hi) l at s hl (ha, hb) =
      Outcome-weaken _ _ _ (λ q. ground arith) (series_pair-Outcome lo hi false _ ha hb)
  eval_right-Outcome between left (single r) l at s hl hr = cc
  eval_right-Outcome op_gt left (single r) l at s hl hr = single-Outcome op_gt left r l hl hr
  eval_right-Outcome op_ge left (single r) l at s hl hr = single-Outcome op_ge left r l hl hr
  eval_right-Outcome op_lt left (single r) l at s hl hr = single-Outcome op_lt left r l hl hr
  eval_right-Outcome op_le left (single r) l at s hl hr = single-Outcome op_le left r l hl hr
  eval_right-Outcome crosses_above left (single r) l at s hl hr =
      single-Outcome crosses_above left r l hl hr
  eval_right-Outcome crosses_below left (single r) l at s hl hr =
      single-Outcome crosses_below left r l hl hr
  eval_right-Outcome op_gt left (pair lo hi) l at s hl hr = cc
  eval_right-Outcome op_ge left (pair lo hi) l at s hl hr = cc
  eval_right-Outcome op_lt left (pair lo hi) l at s hl hr = cc
  eval_right-Outcome op_le left (pair lo hi) l at s hl hr = cc
  eval_right-Outcome crosses_above left (pair lo hi) l at s hl hr = cc
  eval_right-Outcome crosses_below left (pair lo hi) l at s hl hr = cc

  -- A condition in which the validator finds nothing has a truth value.
  eval_cond-Outcome :
      (c : Cond) (at : Where)
      → check_cond c at defs ≡ []
      → Outcome (divides_columns c.left && right_divides_columns c.right) (eval_cond c row ps)
  unfolding eval_cond
  eval_cond-Outcome c at h =
      let (hl, hs, pl, pr, hr, hx) = check_cond-nil c at defs h in
      let clean : IsClean defs c.left = (at, at, hl, pl) in
      Outcome-weaken
        (divides_columns c.left && (divides_columns c.left && right_divides_columns c.right)) _ _
        (λ q. ground arith)
        (Outcome-bind _ _ _ _ (series-Outcome c.left false clean) (λ l el.
          eval_right-Outcome c.op c.left c.right l at hs clean
            (clean_rights c.left (operand_kind c.left at 0).1 c.right at defs pr hr)))

  mutual
    unfolding walk eval_node node_divides_columns

    pub eval_node-Outcome :
        (n : Node) (depth : ℕ) (path : List Step)
        → (walk n defs depth path).0 ≡ []
        → Outcome (node_divides_columns n) (eval_node n row ps)
    eval_node-Outcome (all_node ns) depth path h =
        eval_all-Outcome ns in_all 0 (suc depth) path (within depth path _ h)
    eval_node-Outcome (any_node ns) depth path h =
        eval_any-Outcome ns in_any 0 (suc depth) path (within depth path _ h)
    eval_node-Outcome (not_node n) depth path h =
        Outcome-map _ _ not
          (eval_node-Outcome n (suc depth) (in_not ∷ path) (within depth path _ h))
    eval_node-Outcome (leaf c) depth path h =
        eval_cond-Outcome c (entry_at path) (within depth path _ h)

    eval_all-Outcome :
        (ns : Nodes) (step : ℕ → Step) (i depth : ℕ) (path : List Step)
        → (walk_all ns step i defs depth path).0 ≡ []
        → Outcome (nodes_divide_columns ns) (eval_all ns row ps)
    eval_all-Outcome (one n) step i depth path h = eval_node-Outcome n depth (step i ∷ path) h
    eval_all-Outcome (more n ns) step i depth path h =
        let (h0, h1) = append-nil _ _ h in
        Outcome-bind _ _ _ _ (eval_node-Outcome n depth (step i ∷ path) h0)
          (λ b e. Outcome-map _ _ (λ bs. b && bs) (eval_all-Outcome ns step (suc i) depth path h1))

    eval_any-Outcome :
        (ns : Nodes) (step : ℕ → Step) (i depth : ℕ) (path : List Step)
        → (walk_all ns step i defs depth path).0 ≡ []
        → Outcome (nodes_divide_columns ns) (eval_any ns row ps)
    eval_any-Outcome (one n) step i depth path h = eval_node-Outcome n depth (step i ∷ path) h
    eval_any-Outcome (more n ns) step i depth path h =
        let (h0, h1) = append-nil _ _ h in
        Outcome-bind _ _ _ _ (eval_node-Outcome n depth (step i ∷ path) h0)
          (λ b e. Outcome-map _ _ (λ bs. b || bs) (eval_any-Outcome ns step (suc i) depth path h1))
