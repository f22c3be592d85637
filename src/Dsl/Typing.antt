-- ===== src/Dsl/Typing.antt =====
-- What `validate_spec` of backend/src/stk/domain/dsl/validate.py promises to the interpreter in
-- backend/src/stk/domain/dsl/evaluate.py: operands, conditions and nodes without an error have a
-- value. The one exception left is a division of two numbers by 0, which the validator lets pass.
use stock_analyser.Prelude.{
  ℕ, suc, ◌≡◌, refl, ◌⊎◌, inl, inr, Bool, true, false, ◌&&◌, ◌||◌, not, Option, some, List, [], ◌∷◌,
  ◌++◌, arith, leb, Bool-cases, Option-cases, Result, ok, err, ◌>>=◌, >>=-eq-ok,
}
use stock_analyser.Decimal.{Decimal, zero_d, eqd, quotient}
use stock_analyser.Dsl.{
  Operand, number, ind, param, arith_of, Arith, op_mul, op_add, op_sub, op_div, Right, single, pair,
  Node, Nodes, all_node, any_node, not_node, leaf, one, more,
}
use stock_analyser.Dsl.Cells.{Cell}
use stock_analyser.Dsl.Catalogue.{find_indicator, column_for, column}
use stock_analyser.Dsl.Evaluate.{
  Row, Params, Value, scalar, column_value, EvalError, zero_division, param_value, arith_value,
  arith_scalars, eval_operand, cell_or_missing,
}
use stock_analyser.Dsl.Params.{Defs, is_defined}
use stock_analyser.Dsl.Validate.{Where, operand_kind, ind_error, check_params, max_operand_depth}

-- An operand that names an indicator is a column.
unfoldable pub has_ind : Operand → Bool
has_ind (ind name period) = true
has_ind (arith_of o x y) = has_ind x || has_ind y
has_ind _ = false

abbrev pub is_division : Arith → Bool
is_division op_div = true
is_division _ = false

-- Each division in an operand has a column on one of its sides.
unfoldable pub divides_columns : Operand → Bool
unfolding has_ind
divides_columns (arith_of o x y) =
    (divides_columns x && divides_columns y) && (not (is_division o) || has_ind x || has_ind y)
divides_columns _ = true

abbrev pub right_divides_columns : Right → Bool
right_divides_columns (single r) = divides_columns r
right_divides_columns (pair lo hi) = divides_columns lo && divides_columns hi

unfoldable mutual
  unfolding divides_columns

  pub node_divides_columns : Node → Bool
  node_divides_columns (all_node ns) = nodes_divide_columns ns
  node_divides_columns (any_node ns) = nodes_divide_columns ns
  node_divides_columns (not_node n) = node_divides_columns n
  node_divides_columns (leaf c) = divides_columns c.left && right_divides_columns c.right

  pub nodes_divide_columns : Nodes → Bool
  nodes_divide_columns (one n) = node_divides_columns n
  nodes_divide_columns (more n ns) = node_divides_columns n && nodes_divide_columns ns

-- A value, or a division by 0 where that is not excluded.
abbrev pub Outcome : {A : Type 0} → Bool → Result EvalError A → Type 0
Outcome {A} safe run = ((v : A) × (run ≡ ok v)) ⊎ ((run ≡ err zero_division) × (safe ≡ false))

-- Each parameter that is defined has a value.
abbrev pub Covers : Defs → Params → Type 0
Covers defs ps =
    (name : ℕ) → is_defined defs name ≡ true → (v : Decimal) × (param_value ps name ≡ some v)

pub append-nil : {A : Type 0} (xs ys : List A) → xs ++ ys ≡ [] → (xs ≡ []) × (ys ≡ [])
append-nil [] ys h = (refl, h)
append-nil (x ∷ xs) ys h = cc

pub Outcome-bind :
    {A B : Type 0} (s t : Bool) (run : Result EvalError A) (next : A → Result EvalError B)
    → Outcome s run
    → ((v : A) → run ≡ ok v → Outcome t (next v))
    → Outcome (s && t) (run >>= next)
Outcome-bind s t run next (inl (v, e)) h = elim (h v e) [
  | inl (w, f) ↦ inl (w, rw e f)
  | inr (f, q) ↦ inr (rw e f, ground arith)
]
Outcome-bind s t run next (inr (e, q)) h = inr (rw e refl, ground arith)

-- A step that cannot fail keeps the condition as it is.
pub Outcome-map :
    {A B : Type 0} (s : Bool) (run : Result EvalError A) (f : A → B)
    → Outcome s run
    → Outcome s (run >>= λ v. ok (f v))
Outcome-map s run f (inl (v, e)) = inl (f v, rw e refl)
Outcome-map s run f (inr (e, q)) = inr (rw e refl, q)

pub Outcome-weaken :
    {A : Type 0} (s t : Bool) (run : Result EvalError A)
    → (t ≡ true → s ≡ true)
    → Outcome s run
    → Outcome t run
Outcome-weaken s t run h (inl v) = inl v
Outcome-weaken s true run h (inr (e, q)) = ground arith
Outcome-weaken s false run h (inr (e, q)) = inr (e, refl)

abbrev is_column : Value → Bool
is_column (scalar d) = false
is_column (column_value c) = true

divide-Outcome : (a b : Decimal) → Outcome false (arith_scalars op_div a b)
divide-Outcome a b = elim (Bool-cases (eqd b zero_d)) [
  | inl e ↦ inr (rw e refl, refl)
  | inr e ↦ inl (scalar (quotient a b), rw e refl)
]

arith_value-Outcome :
    (o : Arith) (a b : Value)
    → Outcome (not (is_division o) || is_column a || is_column b) (arith_value o a b)
unfolding arith_value
arith_value-Outcome op_mul (scalar a) (scalar b) = inl (_, refl)
arith_value-Outcome op_add (scalar a) (scalar b) = inl (_, refl)
arith_value-Outcome op_sub (scalar a) (scalar b) = inl (_, refl)
arith_value-Outcome op_div (scalar a) (scalar b) = divide-Outcome a b
arith_value-Outcome o (column_value a) (scalar b) = inl (_, refl)
arith_value-Outcome o (scalar a) (column_value b) = inl (_, refl)
arith_value-Outcome o (column_value a) (column_value b) = inl (_, refl)

arith_value-column :
    (o : Arith) (a b v : Value)
    → arith_value o a b ≡ ok v
    → is_column a || is_column b ≡ true
    → is_column v ≡ true
unfolding arith_value
arith_value-column o (column_value a) (scalar b) v h k = ground arith
arith_value-column o (scalar a) (column_value b) v h k = ground arith
arith_value-column o (column_value a) (column_value b) v h k = ground arith
arith_value-column o (scalar a) (scalar b) v h k = ground arith

or_true : (a b : Bool) → a || b ≡ true → (a ≡ true) ⊎ (b ≡ true)
or_true a b h = ground arith

module _ (row : Row) (ps : Params) where
  bind_column :
      {A : Type 0} (step : Result EvalError A) (f : A → Cell) (v : Value)
      → (step >>= λ c. ok (column_value (f c))) ≡ ok v
      → is_column v ≡ true
  bind_column (ok c) f (column_value d) h = refl
  bind_column (ok c) f (scalar d) h = cc
  bind_column (err e) f v h = cc

  eval_operand-column :
      (x : Operand) (prev : Bool) (v : Value)
      → has_ind x ≡ true
      → eval_operand x row ps prev ≡ ok v
      → is_column v ≡ true
  unfolding has_ind eval_operand
  eval_operand-column (number d) prev v h e = cc
  eval_operand-column (param name) prev v h e = cc
  eval_operand-column (ind name period) prev v h e = bind_column _ _ v e
  eval_operand-column (arith_of o x y) prev v h e =
      let (a, ea, rest) = >>=-eq-ok (eval_operand x row ps prev) _ e in
      let (b, eb, last) = >>=-eq-ok (eval_operand y row ps prev) _ rest in
      arith_value-column o a b v last (elim (or_true (has_ind x) (has_ind y) h) [
        | inl k ↦ let f = eval_operand-column x prev a k ea in rw f refl
        | inr k ↦ let f = eval_operand-column y prev b k eb in ground arith
      ])

reads-column :
    (o : Arith) (x y a b : Bool)
    → (x ≡ true → a ≡ true)
    → (y ≡ true → b ≡ true)
    → (not (is_division o) || x || y) ≡ true
    → (not (is_division o) || a || b) ≡ true
reads-column o x y a b h k q = ground arith

module _ (row : Row) (defs : Defs) (ps : Params) (covered : Covers defs ps) where
  eval_ind-Outcome :
      (name : ℕ) (period : Option ℕ) (at : Where) (prev : Bool)
      → ind_error name period at ≡ []
      → (c : Cell) × (eval_operand (ind name period) row ps prev ≡ ok (column_value c))
  unfolding ind_error eval_operand column_for
  eval_ind-Outcome name period at prev h = elim (Option-cases (find_indicator name)) [
    | inl e ↦ let bad = rw e at h in cc
    | inr (i, e) ↦ (cell_or_missing (row.cell (column i period) prev), rw e refl)
  ]

  -- An operand in which the validator finds nothing has a value.
  pub eval_operand-Outcome :
      (x : Operand) (at at' : Where) (depth : ℕ) (prev : Bool)
      → (operand_kind x at depth).0 ≡ []
      → check_params x at' defs ≡ []
      → Outcome (divides_columns x) (eval_operand x row ps prev)
  unfolding operand_kind check_params divides_columns eval_operand
  eval_operand-Outcome (number d) at at' depth prev h k = inl (_, refl)
  eval_operand-Outcome (param name) at at' depth prev h k =
      elim (Bool-cases (is_defined defs name)) [
        | inl e ↦ let (v, f) = covered name e in inl (scalar v, rw f refl)
        | inr e ↦ let bad = rw e at k in cc
      ]
  eval_operand-Outcome (ind name period) at at' depth prev h k =
      let (c, e) = eval_ind-Outcome name period at prev h in inl (_, e)
  eval_operand-Outcome (arith_of o x y) at at' depth prev h k =
      elim (Bool-cases (leb max_operand_depth depth)) [
        | inl e ↦ let bad = rw e at h in cc
        | inr e ↦
            let (hx, hy) = append-nil _ _ (rw e at h) in
            let (kx, ky) = append-nil _ _ k in
            Outcome-weaken
              (divides_columns x
                && (divides_columns y && (not (is_division o) || has_ind x || has_ind y)))
              _ _ (λ q. ground arith)
              (Outcome-bind (divides_columns x) _ _ _
                (eval_operand-Outcome x at at' (suc depth) prev hx kx)
                (λ a ea.
                  Outcome-bind (divides_columns y) (not (is_division o) || has_ind x || has_ind y) _
                    _ (eval_operand-Outcome y at at' (suc depth) prev hy ky)
                    (λ b eb.
                      Outcome-weaken _ _ _
                        (reads-column o (has_ind x) (has_ind y) (is_column a) (is_column b)
                          (λ q. eval_operand-column row ps x prev a q ea)
                          (λ q. eval_operand-column row ps y prev b q eb))
                        (arith_value-Outcome o a b))))
      ]
