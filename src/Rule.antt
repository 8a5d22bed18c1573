-- ===== src/Rule.antt =====
-- The rule engine, pkg/rule_engine: rules with conditions and actions, and their validation. CEL,
-- the expression language, is a parameter.
pub mod Actions
pub mod Debounce
pub mod Engine
pub mod Errors
pub mod Validate
