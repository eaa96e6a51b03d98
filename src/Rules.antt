-- ===== src/Rules.antt =====
-- app/domain/rules: the rules that may block an automatic fix. Of a `RuleResult` the model keeps
-- whether the rule passed; messages and metadata are not modelled.
pub mod Blacklist
pub mod BlastRadius
pub mod Confidence
pub mod TimeWindow
pub mod Tests
