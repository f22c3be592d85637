-- ===== src/Dsl.antt =====
-- backend/src/stk/domain/dsl/model.py: the rules that a strategy is written in. Names and texts are
-- numbered, floats are exact fractions. The patterns and lengths that the schema asks of texts are
-- left out; a list that must not be empty is one by construction.
pub mod Cells
pub mod Names
pub mod Catalogue
pub mod Evaluate
pub mod Validate
pub mod Params
pub mod Typing
pub mod Conditions
pub mod Soundness
pub mod Poorer
pub mod Missing
pub mod Negation
pub mod Previous
pub mod Reads
pub mod Combinations
pub mod Limits
use stock_analyser.Prelude.{ℕ, Bool, Option, List}
use stock_analyser.Decimal.{Decimal}

pub data Horizon : Type 0 where
  short_term swing momentum long_term : Horizon

-- The classes `Mul`, `Add`, `Sub` and `Div`, which differ in their name alone.
pub data Arith : Type 0 where
  op_mul op_add op_sub op_div : Arith

pub data Operand : Type 0 where
  number : Decimal → Operand
  ind : ℕ → Option ℕ → Operand
  param : ℕ → Operand
  arith_of : Arith → Operand → Operand → Operand

pub data Op : Type 0 where
  op_gt op_ge op_lt op_le between crosses_above crosses_below : Op

-- The right side of a condition: an operand or a tuple of two.
pub data Right : Type 0 where
  single : Operand → Right
  pair : Operand → Operand → Right

pub record Cond : Type 0 where
  pub left : Operand
  pub op : Op
  pub right : Right

mutual
  pub data Node : Type 0 where
    all_node : Nodes → Node
    any_node : Nodes → Node
    not_node : Node → Node
    leaf : Cond → Node

  -- `list[Node] = Field(min_length=1)`
  pub data Nodes : Type 0 where
    one : Node → Nodes
    more : Node → Nodes → Nodes

pub record Universe : Type 0 where
  pub min_price_raw : Decimal
  pub min_median_turnover_inr : Decimal
  pub min_listed_days : ℕ
  pub exclude_series : List ℕ

pub data StopType : Type 0 where
  atr_stop pct_stop : StopType

pub record StopRule : Type 0 where
  pub stop_type : StopType
  pub mult : Option Decimal
  pub value : Option Decimal

pub record ExitRules : Type 0 where
  pub stop : Option StopRule
  pub target : Option StopRule
  pub max_hold_days : ℕ

pub data Direction : Type 0 where
  asc desc : Direction

pub record RankKey : Type 0 where
  pub ind : ℕ
  pub period : Option ℕ
  pub dir : Direction
  pub weight : Decimal

-- `by` has at least one key: the first and the others.
pub record Rank : Type 0 where
  pub first_key : RankKey
  pub more_keys : List RankKey
  pub max_new_per_day : ℕ

pub record ParamDef : Type 0 where
  pub default : Decimal
  pub grid : List Decimal

-- `params` is the dict's items in their order.
pub record StrategySpec : Type 0 where
  pub slug : ℕ
  pub name : ℕ
  pub horizon : Horizon
  pub universe : Universe
  pub params : List (ℕ × ParamDef)
  pub entry : Node
  pub exit : ExitRules
  pub rank : Option Rank
  pub max_positions : ℕ
  pub notes : ℕ
