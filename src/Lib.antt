-- ===== src/Lib.antt =====
-- Verification library of the LiminalOSAI governance SDK (sdk/): what it decides about running agents,
-- and the evidence that it keeps.
--
-- Shared modules
--   Prelude           tests on numbers and texts, lists, integers, texts, Python's exceptions
--   Json              the documents that are hashed: Python's dicts, lists, texts, integers, booleans, None
--   Hashing           `canonical_sha256` (sdk/liminal_post_sandbox_contracts/__init__.py) as a parameter: any
--                     function from documents to texts. No theorem assumes that it has no collision; where
--                     one matters, the statement names it. Hashing/Toy has a concrete one for the tests.
--   Exec              methods of an object: a call takes the object and gives a result or an exception, and
--                     the object, with what was written before the exception. Exec/Keeps: invariants; Exec/Returns: what a
--                     call that returned has done.
--
-- Escalation          sdk/liminal_causal_escalation/__init__.py
--   Event, Chain      `TrajectoryEvent` with `build`, `_verify_chain`
--   Score, Decision   `RULES` and the score, `analyze_trajectory`
--   Replay            `replay`, on mappings with values of the annotated types
--   Subsequence, Growth, Tamper, Extend, Replayed, Attack   the properties
--
-- Trcp                sdk/liminal_trcp/__init__.py, the class `TRCPSimulator` with its records
--   Authorization, Scope, Provider, Task          the records and their checks
--   State, Protocol   the state of the simulator and its private methods
--   Methods, Failover, Verification, Report       the public methods, one function each
--   Calls             any sequence of calls; a call that raises leaves what it wrote
--   Trace, Narrowing, Invariant, Preservation, Gate, Guarantees, Admission   the properties
--
-- ProcessTree         sdk/liminal_process_tree/__init__.py, the class `ProcessTreeSupervisor`
--   Observation, State            what the host reports; bindings, receipts, the host's callbacks (a parameter)
--   Sessions, Freeze, Quiesce     the methods; a sweep is the supervisor with the local variables of the loop
--   Receipt           `verify_receipt`, on documents of any shape
--   Lookup, Terminal, Sweeps, NoFreeze, Verified  the properties; Calls: any sequence of calls
--
-- Containment         sdk/liminal_containment/__init__.py, the class `ContainmentCoordinator`, over an interface
--                     for the capability broker and the host's callbacks; it calls ProcessTree.Receipt and
--                     Lineage (`verify_receipt` of sdk/liminal_process_lineage/__init__.py)
--   State, Checks, Stages, Coordinator            the state, the checks, the stages, `contain` and `release`
--   Leads             total correctness of the parts; Review, Accounted, Walk, Release: the properties
--
-- Contracts           sdk/liminal_post_sandbox_contracts/__init__.py: the validators, `CausalRuntimeEvent`, `validate_scope`
--                     (Names, Scope), `CapabilityContract` and `validate_containment_transition`
--   Steps, Agreement, Capability/Delegable   its transitions and the coordinator's; what a delegable contract has
--
-- Broker              sdk/liminal_capability_broker/broker.py, the class `CapabilityBroker`; the dict of states is the
--                     list of its values
--   State, Scopes, Records        the state, `_scope_contains` and `_effect_for`, events and receipts
--   Admission, Authorize, Lifecycle, Calls        the public methods; any sequence of calls
--   Dict, Invariant, Recording, Using, Delegable, Preservation   the invariant and that each method keeps it
--   Guarantees, Grants, Refusals, Delegation      the properties
--
-- Mediation           sdk/liminal_runtime_mediation/__init__.py, the class `RuntimeMediator`, over Broker and the executors
--   Operation, Observed, State, Mediator          the operations, the receipts and the methods
--   Calls             any sequence of calls, and the same with executors that are logged
--   Uses, Allowed, Verified                       the properties, over both classes
--
-- EffectCommit        sdk/liminal_effect_commit/__init__.py, the class `EffectCommitBroker`, over its providers, the
--                     clock and the executors
--   State, Documents, Observe     the records and documents, and what the providers give
--   Receipts, Construct, Issue, Commit            the methods; Calls: any sequence of calls
--   Logged            a host whose world logs the calls of executors, to count them
--   Effects, Spending, Once, Gate, Refused, Brief, Expiry, Verified     the properties
--
-- Numbers are unbounded, as in Python. Loops are recursion on their lists, so no fuel is used but for the
-- digits of a number, where the number itself is enough. A field that the source reads from a dict is a
-- field of a record where every dict of that kind has it.
--
-- Not modelled: values of other types than the annotations name, the digests' computation, the
-- adapters and tools (input and output), and the components of the SDK that are not listed above.
pub mod Prelude
pub mod Json
pub mod Hashing
pub mod Exec
pub mod Escalation
pub mod Trcp
pub mod ProcessTree
pub mod Containment
pub mod Contracts
pub mod Broker
pub mod Mediation
pub mod EffectCommit
