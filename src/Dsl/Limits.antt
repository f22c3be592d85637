-- ===== src/Dsl/Limits.antt =====
-- The sizes that `validate_spec` of backend/src/stk/domain/dsl/validate.py admits.
use stock_analyser.Prelude.{
  ℕ, suc, ◌+◌, ◌≤◌, ◌≡◌, refl, ◌∙◌, inl, inr, Bool, true, false, arith, ltb, max, List, [], ◌∷◌,
  length, Bool-cases, Option,
}
use stock_analyser.Dsl.{
  Node, Nodes, all_node, any_node, not_node, leaf, one, more, StrategySpec, Horizon,
}
use stock_analyser.Dsl.Params.{Defs, param_combinations}
use stock_analyser.Dsl.Validate.{
  Errors, Step, in_all, in_any, in_not, HorizonWindow, SpecError, error_if, max_depth, max_leaves,
  max_param_combinations, walk, walk_all, too_deep, combos, validate_spec, rule_errors,
  window_errors, all_rank_errors, grid_errors, stop_not_positive, target_not_positive,
  too_many_conditions,
}
use stock_analyser.Dsl.Combinations.{length-param_combinations}
use stock_analyser.Dsl.Typing.{append-nil}
use stock_analyser.Dsl.Conditions.{within}

unfoldable mutual
  pub count_leaves : Node → ℕ
  count_leaves (all_node ns) = count_all ns
  count_leaves (any_node ns) = count_all ns
  count_leaves (not_node n) = count_leaves n
  count_leaves (leaf c) = 1

  pub count_all : Nodes → ℕ
  count_all (one n) = count_leaves n
  count_all (more n ns) = count_leaves n + count_all ns

unfoldable mutual
  pub nesting : Node → ℕ
  nesting (all_node ns) = suc (nesting_all ns)
  nesting (any_node ns) = suc (nesting_all ns)
  nesting (not_node n) = suc (nesting n)
  nesting (leaf c) = 1

  pub nesting_all : Nodes → ℕ
  nesting_all (one n) = nesting n
  nesting_all (more n ns) = max (nesting n) (nesting_all ns)

deep_enough :
    (depth : ℕ) (path : List Step) (found : Errors × ℕ)
    → (too_deep (ltb max_depth depth) path found).0 ≡ []
    → (depth ≤ max_depth) × ((too_deep (ltb max_depth depth) path found).1 ≡ found.1)
deep_enough depth path found h = elim (Bool-cases (ltb max_depth depth)) [
  | inl e ↦ let bad = rw e at h in cc
  | inr e ↦ (ground arith, rw e refl)
]

module _ (defs : Defs) where
  mutual
    unfolding walk count_leaves nesting

    walk-limits :
        (n : Node) (depth : ℕ) (path : List Step)
        → (walk n defs depth path).0 ≡ []
        → ((walk n defs depth path).1 ≡ count_leaves n) × (depth + nesting n ≤ suc max_depth)
    walk-limits (all_node ns) depth path h =
        let (d, e) = deep_enough depth path _ h in
        let (c, k) = walk_all-limits ns in_all 0 (suc depth) path (within depth path _ h) in
        (e ∙ c, omega arith)
    walk-limits (any_node ns) depth path h =
        let (d, e) = deep_enough depth path _ h in
        let (c, k) = walk_all-limits ns in_any 0 (suc depth) path (within depth path _ h) in
        (e ∙ c, omega arith)
    walk-limits (not_node n) depth path h =
        let (d, e) = deep_enough depth path _ h in
        let (c, k) = walk-limits n (suc depth) (in_not ∷ path) (within depth path _ h) in
        (e ∙ c, omega arith)
    walk-limits (leaf c) depth path h = let (d, e) = deep_enough depth path _ h in (e, omega arith)

    walk_all-limits :
        (ns : Nodes) (step : ℕ → Step) (i depth : ℕ) (path : List Step)
        → (walk_all ns step i defs depth path).0 ≡ []
        → ((walk_all ns step i defs depth path).1 ≡ count_all ns)
          × (depth + nesting_all ns ≤ suc max_depth)
    walk_all-limits (one n) step i depth path h = walk-limits n depth (step i ∷ path) h
    walk_all-limits (more n ns) step i depth path h =
        let (h0, h1) = append-nil _ _ h in
        let (c, k) = walk-limits n depth (step i ∷ path) h0 in
        let (cs, ks) = walk_all-limits ns step (suc i) depth path h1 in (omega arith, omega arith)

error_if-nil : (b : Bool) (e : SpecError) → error_if b e ≡ [] → b ≡ false
error_if-nil true e h = cc
error_if-nil false e h = refl

-- A specification without errors has at most 12 conditions, nests them at most 3 deep, and has at
-- most 16 combinations of parameters.
pub validate_spec_limits :
    (spec : StrategySpec) (horizons : Horizon → Option HorizonWindow)
    → validate_spec spec horizons ≡ []
    → (count_leaves spec.entry ≤ 12)
      × (nesting spec.entry ≤ 3)
      × (length (param_combinations spec.params) ≤ 16)
unfolding validate_spec
validate_spec_limits spec horizons h =
    let (h0, h1) = append-nil _ _ h in
    let (hl, h2) =
      append-nil
        (error_if (ltb max_leaves (walk spec.entry spec.params 1 []).1) too_many_conditions) _ h1 in
    let (_, h3) = append-nil (rule_errors spec.exit.stop stop_not_positive) _ h2 in
    let (_, h4) = append-nil (rule_errors spec.exit.target target_not_positive) _ h3 in
    let (_, h5) = append-nil (window_errors (horizons spec.horizon) spec.exit.max_hold_days) _ h4 in
    let (_, h6) = append-nil (all_rank_errors spec.rank) _ h5 in
    let (_, h7) = append-nil (grid_errors spec.params) _ h6 in
    let (c, k) = walk-limits spec.params spec.entry 1 [] h0 in
    let few = error_if-nil _ _ hl in
    let combined = error_if-nil (ltb max_param_combinations (combos spec.params)) _ h7 in
    (ground arith, omega arith, rw (length-param_combinations spec.params) (ground arith))
