-- ===== src/DslEval/Tests.antt =====
-- Runs of the parser and the evaluator, and the theorems at concrete inputs.
use crapssim_control.Prelude.{is_some, [], ◌∷◌, ◌≡◌, ◌≢◌, refl, none}
use crapssim_control.Prelude.Int.{pos}
use crapssim_control.DslEval.Syntax.{
  Number, gt, or_op, lparen, rparen, or_word, not_word, op, number, dotted, Node, var, num, negated,
  bin, cmp, Fields, end, field, name, num_value, dict_value,
}
use crapssim_control.DslEval.Parser.{
  ok, out_of_fuel, Tokens, parse, parse_or, accept_nots, expect_rparen, finish,
}
use crapssim_control.DslEval.Evaluator.{
  evaluate_ast, both, path_get, walk, split_dots, find_segment, find, read_index, eval_node,
  eval_value,
}
use crapssim_control.DslEval.Ends.{parse_ends}
use crapssim_control.DslEval.Printer.{print}
use crapssim_control.DslEval.RoundTrip.{parse-print}
use crapssim_control.DslEval.Known.{known, is_some-eval_node}

abbrev limit : Number
limit = record { num = pos 300; places = 0 }

-- `NOT (table.bankroll > 300 OR done)`
abbrev source : Tokens
source =
    not_word
    ∷ lparen
    ∷ dotted "table.bankroll"
    ∷ op gt
    ∷ number limit
    ∷ or_word
    ∷ dotted "done"
    ∷ rparen
    ∷ []

abbrev condition : Node
condition = negated (bin or_op (cmp gt (var "table.bankroll") (num limit)) (var "done"))

abbrev table : Fields
table = field (name "table") (dict_value (field (name "bankroll") (num_value limit) end)) end

parse_source : parse source ≡ ok condition
unfolding parse parse_or accept_nots expect_rparen finish
parse_source = refl

-- `done` is not in the snapshot.
evaluate_condition : evaluate_ast condition table ≡ none
unfolding evaluate_ast eval_node both path_get walk split_dots find_segment find read_index
evaluate_condition = refl

parse_ends_example : parse source ≢ out_of_fuel
parse_ends_example = parse_ends source

parse-print_example : parse (print condition) ≡ ok condition
parse-print_example = parse-print condition

is_some-eval_node_example :
    (is_some (eval_node table condition) ≡ known table condition)
    × (is_some (eval_value table condition) ≡ known table condition)
is_some-eval_node_example = is_some-eval_node table condition
