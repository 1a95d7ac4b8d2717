-- ===== src/DslEval.antt =====
-- crapssim_control/dsl_eval.py: the expressions of the WHEN clauses, their parser and their evaluator.
pub mod Syntax
pub mod Parser
pub mod Evaluator
mod Ends
mod Printer
mod Reads
mod RoundTrip
mod Known
mod Tests
