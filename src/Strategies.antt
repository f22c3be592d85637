-- ===== src/Strategies.antt =====
-- backend/src/stk/strategies/repo.py: strategies, their versions and their status events. Texts and
-- specifications are numbered, a specification by its canonical form, so that equal numbers stand
-- for equal hashes. Rows stand newest first.
use stock_analyser.Prelude.{
  ℕ, suc, Bool, true, false, ◌&&◌, if◌then◌else◌, ◌==◌, Option, none, some, List, [], ◌∷◌, max,
  Result, ok, ◌>>=◌, or_raise,
}

-- `STATUSES`
pub data StrategyStatus : Type 0 where
  candidate live decaying retired rejected_strategy : StrategyStatus

pub record StrategyRow : Type 0 where
  pub strategy_id : ℕ
  pub slug : ℕ
  pub origin : ℕ
  pub status : StrategyStatus
  pub status_reason : ℕ

pub record VersionRow : Type 0 where
  pub version_id : ℕ
  pub strategy_id : ℕ
  pub version : ℕ
  pub spec : ℕ

pub record StatusEvent : Type 0 where
  pub strategy_id : ℕ
  pub from_status : Option StrategyStatus
  pub to_status : StrategyStatus
  pub actor : ℕ
  pub reason : ℕ

pub record StrategyDb : Type 0 where
  pub strategies : List StrategyRow
  pub versions : List VersionRow
  pub events : List StatusEvent

unfoldable pub strategy_of : List StrategyRow → ℕ → Option StrategyRow
strategy_of [] slug = none
strategy_of (r ∷ rs) slug =
    let rest = strategy_of rs slug in if r.slug == slug then some r else rest

unfoldable pub next_strategy_id : List StrategyRow → ℕ
next_strategy_id [] = 1
next_strategy_id (r ∷ rs) = max (suc r.strategy_id) (next_strategy_id rs)

unfoldable pub next_version_id : List VersionRow → ℕ
next_version_id [] = 1
next_version_id (v ∷ vs) = max (suc v.version_id) (next_version_id vs)

-- `COALESCE(MAX(version), 0) + 1`
unfoldable pub next_version : List VersionRow → ℕ → ℕ
next_version [] id = 1
next_version (v ∷ vs) id =
    let rest = next_version vs id in if v.strategy_id == id then max (suc v.version) rest else rest

unfoldable pub version_of : List VersionRow → ℕ → ℕ → Option VersionRow
version_of [] id spec = none
version_of (v ∷ vs) id spec =
    let rest = version_of vs id spec in
    if v.strategy_id == id && v.spec == spec then some v else rest

-- The first half of `register_spec`: the strategy's id, inserted where it is new. The texts
-- 'registered, not yet gated', 'registered' and 'system' are 0, 1 and 0.
unfoldable pub ensure_strategy : Option StrategyRow → StrategyDb → ℕ → ℕ → ℕ × StrategyDb
unfolding next_strategy_id
ensure_strategy (some r) db slug origin = (r.strategy_id, db)
ensure_strategy none db slug origin =
    let id = next_strategy_id db.strategies in
    (
      id,
      record db {
        strategies =
            record {
              strategy_id = id;
              slug = slug;
              origin = origin;
              status = candidate;
              status_reason = 0;
            }
            ∷ db.strategies;
        events =
            record {
              strategy_id = id;
              from_status = none;
              to_status = candidate;
              actor = 0;
              reason = 1;
            }
            ∷ db.events;
      },
    )

-- The second half: the version's id, and whether it is new.
unfoldable pub ensure_version : Option VersionRow → StrategyDb → ℕ → ℕ → ℕ × Bool × StrategyDb
unfolding next_version next_version_id
ensure_version (some v) db id spec = (v.version_id, false, db)
ensure_version none db id spec =
    let vid = next_version_id db.versions in
    (
      vid,
      true,
      record db {
        versions =
            record {
              version_id = vid;
              strategy_id = id;
              version = next_version db.versions id;
              spec = spec;
            }
            ∷ db.versions;
      },
    )

unfoldable pub register_spec : StrategyDb → ℕ → ℕ → ℕ → ℕ × (ℕ × Bool × StrategyDb)
unfolding strategy_of ensure_strategy version_of ensure_version
register_spec db slug spec origin =
    let (id, db') = ensure_strategy (strategy_of db.strategies slug) db slug origin in
    (id, ensure_version (version_of db'.versions id spec) db' id spec)

pub data StrategyError : Type 0 where
  no_strategy : StrategyError

unfoldable pub strategy_by_id : List StrategyRow → ℕ → Option StrategyRow
strategy_by_id [] id = none
strategy_by_id (r ∷ rs) id =
    let rest = strategy_by_id rs id in if r.strategy_id == id then some r else rest

abbrev pub status_code : StrategyStatus → ℕ
status_code candidate = 0
status_code live = 1
status_code decaying = 2
status_code retired = 3
status_code rejected_strategy = 4

-- `UPDATE strategies SET ... WHERE strategy_id=?`
unfoldable pub update_strategy : List StrategyRow → ℕ → StrategyStatus → ℕ → List StrategyRow
update_strategy [] id status reason = []
update_strategy (r ∷ rs) id status reason =
    (if r.strategy_id == id then record r { status = status; status_reason = reason } else r)
    ∷ update_strategy rs id status reason

-- `set_status` for the statuses that it knows: with the same status only the reason is refreshed.
unfoldable pub set_strategy_status :
    StrategyDb → ℕ → StrategyStatus → ℕ → ℕ → Result StrategyError (Bool × StrategyDb)
unfolding strategy_by_id update_strategy
set_strategy_status db id new_status actor reason = do
  row ← or_raise (strategy_by_id db.strategies id) no_strategy
  let written = record db { strategies = update_strategy db.strategies id new_status reason }
  let event : StatusEvent = record {
    strategy_id = id;
    from_status = some row.status;
    to_status = new_status;
    actor = actor;
    reason = reason;
  }
  if status_code row.status == status_code new_status
      then ok (false, written)
      else ok (true, record written { events = event ∷ db.events })
