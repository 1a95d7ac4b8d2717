-- ===== src/Lib.antt =====
-- Crapssim-Control drives the CrapsSim dice engine: a controller (crapssim_control/controller.py)
-- takes a strategy spec and, roll by roll, derives events, evaluates rules, makes bet amounts legal,
-- asks the engine to place them and records what happened. External commands enter through a queue
-- that the controller drains; a telemetry tracker counts rolls, hands and money beside it.
--
-- The modules, and the files they are about:
--   CommandChannel      crapssim_control/external/command_channel.py. One record CommandQueue holds the
--                       deque, the seen ids, the counts, and a rate limiter and circuit breaker per
--                       source; enqueue, drain and record_outcome are functions on it that take the
--                       clock's reading `now`, a whole number of ticks, as an argument. The lock makes
--                       each method one step, so an interleaving of threads is a list of calls.
--                       RateLimiter and CircuitBreaker are child modules, and Queue has the queue.
--   LegalizeLegacy      crapssim_control/legalize_legacy.py: the place, odds and lay amounts.
--   Tracker             crapssim_control/tracker.py: the five event methods, their run over a list of
--                       events, and the snapshot.
--   BetLedger           crapssim_control/bet_ledger.py: place, resolve, the point cycle, the intents and
--                       the snapshot, as functions on one record. `normalize_bet_type` of
--                       crapssim_control/bet_types.py is an argument, any function of a bet and its
--                       meta dict; the clock is one too, and an amount is whole.
--   PolicyEngine        crapssim_control/policy_engine.py and crapssim_control/risk_schema.py: the checks
--                       of an action against the risk policy, the verdict, and the loading of a policy.
--   Analytics           crapssim_control/analytics/tracker.py and crapssim_control/analytics/types.py: the
--                       tracker of the exports; a session is its start and a list of calls.
--   Events              crapssim_control/events.py: the state, the event that it derives, and the
--                       canonical form of an event.
--   DslEval             crapssim_control/dsl_eval.py: the recursive descent parser of WHEN conditions,
--                       over tokens, and the evaluator over a snapshot, a dict of values. A number is a
--                       whole number over a power of ten. The text of the tokens, a regular expression,
--                       is left out, and so is the cache of compiled conditions.
--   RuleEngine          crapssim_control/rule_engine.py: the entry of each rule (cooldown, once, scope
--                       lock), tick and evaluate over a list of rules, with DslEval for the conditions;
--                       RuleEngine.Spec says when a rule fires from its last firing alone.
--   Orchestration       crapssim_control/orchestration/control_surface.py and event_bus.py: a run, its
--                       thread and the callers of stop as steps of a schedule, with each write to the
--                       shared status a step of its own, and the bus with its bounded queues and history.
--   Verbs               crapssim_control/verbs.py: the args of a verb and the ten handlers, which change
--                       bets and bankroll without an engine. Amounts are in halves of a unit.
--   Behavior            crapssim_control/behavior/evaluator.py: the first rule that applies in a window,
--                       and the cooldowns; the evaluation of a condition and the verbs are arguments.
--   Legalize            crapssim_control/legalize.py: the runtime legalizer, in cents.
--   VarStore            crapssim_control/varstore.py: the baselines, profits and counts that are derived
--                       from the snapshots.
--   EngineAdapter       crapssim_control/engine_adapter.py: VanillaAdapter without a live engine. State has
--                       the stub and its snapshots, Normalize the normalizer, Effects `_apply_effect`,
--                       Handlers and Registry the verb handlers with those of Verbs, Actions apply_action
--                       with the risk policy of PolicyEngine, Roll and Session step_roll. The rules are
--                       an argument of it, a function of the snapshot. Bets are whole, since only
--                       texts of whole numbers change them; amounts of the args, the bankroll and the
--                       limits of the policy are in halves, since `int` and `:.0f` cut or round an amount
--                       on its way to a bet and `regress` pays back half of a bet. The texts that
--                       explain an action, the proposition bets and the ATS progress are left out.
--   Templates           crapssim_control/templates.py and crapssim_control/actions.py: diff_bets, the plan of
--                       clears and sets from the bets that are up to those that a template desires, and
--                       the envelope of an action. The rendering of a template is left out.
--   Controller          crapssim_control/controller.py: the order and the merging of an event's actions, the
--                       envelopes of Templates.
--   Plugins             crapssim_control/plugins/registry.py: the registry of capabilities; the specs that
--                       discover finds are a list.
--   Prelude             Tests and lists, whole numbers of either sign over the native naturals with
--                       Python's floor division, dictionaries as association lists, and strings.
--
-- Elsewhere amounts of money are whole numbers of a unit (one may read it as a cent or finer), where the code
-- has a float: rounding of floating point is not modelled. A quotient that the code stores is kept as a
-- pair. Dictionaries keep their insertion order as association lists. Every function here is total by
-- structural recursion; two have fuel. The digits of a number n for a ledger key have
-- n + 1, which is enough since each digit divides by ten, and the parser of conditions has eight units for
-- each token and eight more, which `DslEval.Ends` is about. A Python exception that the code lets escape is
-- `none` or a constructor of its own.
--
-- Not modelled: the controller's event loop and its files, the live engine of the adapter and the HTTP
-- service, which are calls of packages outside the repository (crapssim, fastapi, requests) and input/output,
-- the command line, the reports and exports.
pub mod Analytics
pub mod Behavior
pub mod BetLedger
pub mod CommandChannel
pub mod Controller
pub mod DslEval
pub mod EngineAdapter
pub mod Events
pub mod Legalize
pub mod LegalizeLegacy
pub mod Orchestration
pub mod Plugins
pub mod PolicyEngine
pub mod Prelude
pub mod RuleEngine
pub mod Templates
pub mod Tracker
pub mod VarStore
pub mod Verbs
