-- ===== src/Strategy/Factory.antt =====
-- app/domain/strategies/factory.py.
use devflowfix.Base.{Option, none, some}
use devflowfix.Core.Enums.{Decimals, Environment, StrategyType}
use devflowfix.Strategy.{Strategy}
use devflowfix.Strategy.Conservative.{Scaling, conservative}
use devflowfix.Strategy.Floats.{Floats}
use devflowfix.Strategy.SlackFirst.{slack_first}
use devflowfix.Strategy.Hybrid.{hybrid}
use devflowfix.Strategy.VectorDb.{vector_db}

module _ (fl : Decimals) (sc : Scaling fl) (fs : Floats fl) where
  -- `_strategies`
  abbrev pub strategy_of : StrategyType → Strategy
  strategy_of StrategyType.conservative = conservative fl sc
  strategy_of StrategyType.slack_first = slack_first fl fs
  strategy_of StrategyType.hybrid = hybrid fl fs
  strategy_of StrategyType.vector_db = vector_db fl fs
  strategy_of StrategyType.aggressive = slack_first fl fs

  -- `_select_by_environment`
  abbrev pub select_by_environment : Environment → Strategy
  select_by_environment Environment.production = conservative fl sc
  select_by_environment Environment.staging = hybrid fl fs
  select_by_environment Environment.development = slack_first fl fs
  select_by_environment Environment.test = slack_first fl fs

  abbrev pub by_environment : Option Environment → Strategy
  by_environment none = hybrid fl fs
  by_environment (some e) = select_by_environment e

  unfoldable pub create_strategy : Option StrategyType → Option Environment → Strategy
  create_strategy none environment = by_environment environment
  create_strategy (some t) environment = strategy_of t
