-- ===== src/Dsl/Validate.antt =====
-- backend/src/stk/domain/dsl/validate.py: all that is wrong with a specification, in the order in
-- which it is found. An error names its place and its cause; the wording is left out.
use stock_analyser.Prelude.{
  ℕ, suc, ◌+◌, ◌*◌, Bool, true, false, ◌&&◌, ◌||◌, not, if◌then◌else◌, ltb, leb, ◌==◌, max, Option,
  none, some, List, [], ◌∷◌, ◌++◌, contains, any_of, length,
}
use stock_analyser.Decimal.{Decimal, zero_d, eqd, ltd}
use stock_analyser.Dsl.{
  Horizon, Operand, number, ind, param, arith_of, Arith, op_add, op_sub, Op, between, crosses_above,
  crosses_below, Right, single, pair, Cond, Node, Nodes, all_node, any_node, not_node, leaf, one,
  more, atr_stop, pct_stop, StopRule, RankKey, Rank, StrategySpec,
}
use stock_analyser.Dsl.Catalogue.{
  Indicator, Kind, price, price_raw, ratio, pct, osc, rupees, count, fund, find_indicator,
}
use stock_analyser.Dsl.Params.{Defs, is_defined}

abbrev pub max_depth : ℕ
max_depth = 3

abbrev pub max_leaves : ℕ
max_leaves = 12

abbrev pub max_operand_depth : ℕ
max_operand_depth = 2

abbrev pub max_param_combinations : ℕ
max_param_combinations = 16

pub record HorizonWindow : Type 0 where
  pub hold_days_min : ℕ
  pub hold_days_max : ℕ

pub data Step : Type 0 where
  in_all in_any : ℕ → Step
  in_not : Step

-- Where an error stands; the last step of a path into the entry comes first.
pub data Where : Type 0 where
  entry_at : List Step → Where
  rank_by : ℕ → Where

pub data SpecError : Type 0 where
  unknown_ind needs_period takes_no_period : Where → SpecError
  nested_arithmetic needs_pair only_between undefined_param : Where → SpecError
  price_with_number cross_operand nested_conditions : Where → SpecError
  too_many_conditions stop_not_positive target_not_positive : SpecError
  unknown_horizon outside_window too_many_combinations : SpecError
  default_not_in_grid : ℕ → SpecError

abbrev pub Errors : Type 0
Errors = List SpecError

-- `if c: errors.append(e)`
abbrev pub error_if : Bool → SpecError → Errors
error_if true e = e ∷ []
error_if false e = []

-- The tests of a catalogue entry's periods: it lists some and this is one, or neither is there.
abbrev pub period_error : List ℕ → Option ℕ → Where → Errors
period_error [] none at = []
period_error [] (some p) at = takes_no_period at ∷ []
period_error (q ∷ qs) none at = needs_period at ∷ []
period_error (q ∷ qs) (some p) at = error_if (not (contains p (q ∷ qs))) (needs_period at)

abbrev pub entry_error : Option Indicator → Option ℕ → Where → Errors
entry_error none period at = unknown_ind at ∷ []
entry_error (some e) period at = period_error e.periods period at

-- `_ind_error`
unfoldable pub ind_error : ℕ → Option ℕ → Where → Errors
unfolding find_indicator
ind_error name period at = entry_error (find_indicator name) period at

abbrev pub kind_code : Kind → ℕ
kind_code price = 0
kind_code price_raw = 1
kind_code ratio = 2
kind_code pct = 3
kind_code osc = 4
kind_code rupees = 5
kind_code count = 6
kind_code fund = 7

abbrev pub is_sum : Arith → Bool
is_sum op_add = true
is_sum op_sub = true
is_sum _ = false

-- `_arith_kind`, of the kinds of the two sides.
unfoldable pub arith_kind : Arith → Option Kind → Option Kind → Option Kind
arith_kind o none none = none
arith_kind o (some a) (some b) =
    if kind_code a == kind_code b && is_sum o then some a else some ratio
arith_kind o (some a) none = some a
arith_kind o none (some b) = some b

-- The kind of an indicator, of no interest where it has an error.
abbrev pub kind_unless : Errors → Option Indicator → Option Kind
kind_unless [] (some e) = some e.kind
kind_unless _ _ = none

abbrev pub nested_kind :
    Bool → Where → Arith → Errors × Option Kind → Errors × Option Kind → Errors × Option Kind
nested_kind true at o a b = (nested_arithmetic at ∷ [], none)
nested_kind false at o a b = (a.0 ++ b.0, arith_kind o a.1 b.1)

-- The errors of an operand and its kind; none for a bare number or a parameter.
unfoldable pub operand_kind : Operand → Where → ℕ → Errors × Option Kind
unfolding ind_error find_indicator arith_kind
operand_kind (number d) at depth = ([], none)
operand_kind (param name) at depth = ([], none)
operand_kind (ind name period) at depth =
    let errors = ind_error name period at in (errors, kind_unless errors (find_indicator name))
operand_kind (arith_of o x y) at depth =
    nested_kind (leb max_operand_depth depth) at o (operand_kind x at (suc depth))
      (operand_kind y at (suc depth))

-- `_check_params`
unfoldable pub check_params : Operand → Where → Defs → Errors
unfolding is_defined
check_params (param name) at defs = error_if (not (is_defined defs name)) (undefined_param at)
check_params (arith_of o x y) at defs = check_params x at defs ++ check_params y at defs
check_params _ at defs = []

abbrev pub is_price : Option Kind → Bool
is_price (some price) = true
is_price _ = false

abbrev pub is_number : Operand → Bool
is_number (number d) = true
is_number _ = false

abbrev pub is_plain : Operand → Bool
is_plain (number d) = true
is_plain (ind name period) = true
is_plain _ = false

-- `literal_side`: one of the two kinds is there and the other is not.
abbrev pub one_sided : Option Kind → Option Kind → Bool
one_sided none (some _) = true
one_sided (some _) none = true
one_sided _ _ = false

-- One round of the loop over the right sides.
unfoldable pub right_errors : Operand → Option Kind → Operand → Where → Errors
unfolding operand_kind
right_errors left lk r at =
    let (errors, rk) = operand_kind r at 0 in
    errors
    ++ error_if ((is_price lk || is_price rk) && one_sided lk rk && (is_number r || is_number left))
        (price_with_number at)

abbrev pub shape_errors : Op → Right → Where → Errors
shape_errors between (single r) at = needs_pair at ∷ []
shape_errors between (pair lo hi) at = []
shape_errors op (single r) at = []
shape_errors op (pair lo hi) at = only_between at ∷ []

abbrev pub is_plain_right : Right → Bool
is_plain_right (single r) = is_plain r
is_plain_right (pair lo hi) = false

abbrev pub is_cross : Op → Bool
is_cross crosses_above = true
is_cross crosses_below = true
is_cross _ = false

abbrev pub right_params : Right → Where → Defs → Errors
right_params (single r) at defs = check_params r at defs
right_params (pair lo hi) at defs = check_params lo at defs ++ check_params hi at defs

abbrev pub rights_errors : Operand → Option Kind → Right → Where → Errors
rights_errors left lk (single r) at = right_errors left lk r at
rights_errors left lk (pair lo hi) at = right_errors left lk lo at ++ right_errors left lk hi at

abbrev pub cross_errors : Op → Operand → Right → Where → Errors
cross_errors op left right at =
    error_if (is_cross op && not (is_plain left)) (cross_operand at)
    ++ error_if (is_cross op && not (is_plain_right right)) (cross_operand at)

-- `_check_cond`
unfoldable pub check_cond : Cond → Where → Defs → Errors
unfolding operand_kind check_params right_errors
check_cond c at defs =
    let (left_errors, lk) = operand_kind c.left at 0 in
    left_errors
    ++ (shape_errors c.op c.right at
        ++ ((check_params c.left at defs ++ right_params c.right at defs)
            ++ (rights_errors c.left lk c.right at ++ cross_errors c.op c.left c.right at)))

abbrev pub too_deep : Bool → List Step → Errors × ℕ → Errors × ℕ
too_deep true path found = (nested_conditions (entry_at path) ∷ [], 0)
too_deep false path found = found

abbrev pub both : Errors × ℕ → Errors × ℕ → Errors × ℕ
both (es, n) (fs, k) = (es ++ fs, n + k)

-- `_walk`: the errors and the number of conditions met.
unfoldable mutual
  unfolding check_cond

  pub walk : Node → Defs → ℕ → List Step → Errors × ℕ
  walk (all_node ns) defs depth path =
      too_deep (ltb max_depth depth) path (walk_all ns in_all 0 defs (suc depth) path)
  walk (any_node ns) defs depth path =
      too_deep (ltb max_depth depth) path (walk_all ns in_any 0 defs (suc depth) path)
  walk (not_node n) defs depth path =
      too_deep (ltb max_depth depth) path (walk n defs (suc depth) (in_not ∷ path))
  walk (leaf c) defs depth path =
      too_deep (ltb max_depth depth) path (check_cond c (entry_at path) defs, 1)

  pub walk_all : Nodes → (ℕ → Step) → ℕ → Defs → ℕ → List Step → Errors × ℕ
  walk_all (one n) step i defs depth path = walk n defs depth (step i ∷ path)
  walk_all (more n ns) step i defs depth path =
      both (walk n defs depth (step i ∷ path)) (walk_all ns step (suc i) defs depth path)

-- `need is None or need <= 0`
abbrev pub needs_positive : Option Decimal → Bool
needs_positive none = true
needs_positive (some d) = not (ltd zero_d d)

abbrev pub needed : StopRule → Option Decimal
needed rule = elim rule.stop_type [ atr_stop ↦ rule.mult | pct_stop ↦ rule.value ]

unfoldable pub rule_errors : Option StopRule → SpecError → Errors
rule_errors none e = []
rule_errors (some rule) e = error_if (needs_positive (needed rule)) e

unfoldable pub window_errors : Option HorizonWindow → ℕ → Errors
window_errors none days = unknown_horizon ∷ []
window_errors (some w) days =
    error_if (not (leb w.hold_days_min days && leb days w.hold_days_max)) outside_window

unfoldable pub rank_errors : List RankKey → ℕ → Errors
unfolding ind_error
rank_errors [] i = []
rank_errors (k ∷ ks) i = ind_error k.ind k.period (rank_by i) ++ rank_errors ks (suc i)

abbrev pub all_rank_errors : Option Rank → Errors
all_rank_errors none = []
all_rank_errors (some r) = rank_errors (r.first_key ∷ r.more_keys) 0

-- `p.grid and p.default not in p.grid`
abbrev pub is_off_grid : Decimal → List Decimal → Bool
is_off_grid d [] = false
is_off_grid d (v ∷ vs) = not (any_of (λ x. eqd x d) (v ∷ vs))

unfoldable pub grid_errors : Defs → Errors
grid_errors [] = []
grid_errors ((n, p) ∷ rest) =
    error_if (is_off_grid p.default p.grid) (default_not_in_grid n) ++ grid_errors rest

unfoldable pub combos : Defs → ℕ
combos [] = 1
combos ((n, p) ∷ rest) = max 1 (length p.grid) * combos rest

unfoldable pub validate_spec : StrategySpec → (Horizon → Option HorizonWindow) → Errors
unfolding walk rule_errors window_errors rank_errors grid_errors combos
validate_spec spec horizons =
    let (errors, leaves) = walk spec.entry spec.params 1 [] in
    errors
    ++ (error_if (ltb max_leaves leaves) too_many_conditions
        ++ (rule_errors spec.exit.stop stop_not_positive
            ++ (rule_errors spec.exit.target target_not_positive
                ++ (window_errors (horizons spec.horizon) spec.exit.max_hold_days
                    ++ (all_rank_errors spec.rank
                        ++ (grid_errors spec.params
                            ++ error_if (ltb max_param_combinations (combos spec.params))
                                too_many_combinations))))))
