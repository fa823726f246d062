-- ===== src/Lib.antt =====
-- The circuit workbench of the frontend, as functions on values and the theorems that hold of them.
--
-- The workbench edits a circuit: a number of qubits and a list of operations, each with an id, a gate,
-- its qubits and a layer. Every edit gives the circuit in a normal form, with the operations in the
-- order of the layers and, within a layer, of the ids. The editor keeps the circuits in a history with
-- undo and redo, shows a part of the present one by a step slider, validates it, and submits it to the
-- backend as a payload. A gate that is dropped on the canvas collects its qubits by clicks.
--
-- The parts, with the paths from the repository's root under frontend/src/features/circuit:
--   Gate        model/types.ts (GateName) and gates/gate-catalog.ts: `getGateCatalogItem` is
--               `get_gate_catalog_item`, the item of a gate is `catalog_item`.
--   Circuit     model/types.ts, model/constants.ts, and `sortOperations`, of which several files have a
--               copy. Circuit/Edit is model/circuit-model.ts and model/complexity-guard.ts,
--               Circuit/Validation is model/circuit-validation.ts.
--   History     model/history.ts, over any type of document.
--   TimeStep    ui/workbench-time-step.ts.
--   Placement   components/canvas-gate-utils.ts; the clicks of
--               components/use-circuit-canvas-interactions.ts are `place`.
--   Submission  submission/circuit-task-submit.ts up to `buildCircuitTaskPayload`.
--   Template    model/templates.ts.
--   Task        lib/task-status.ts and features/task-runtime/use-task-status-tracking.ts, both under
--               frontend/src: the state of the tracking, with the host's intervals and open streams,
--               and in Task/Tracking/Reachable the order in which things can happen to it: a start may come
--               at any time, and theorems that need that nothing is tracked then say so.
--   Simulation  simulation/scheduler.ts: the requests for a simulation, their timers and answers, as a
--               step relation.
--               Simulation/View is simulation/use-workbench-simulation.ts and Simulation/Filter
--               simulation/probability-filter.ts.
--   Editor      ui/use-workbench-editor-state.ts, ui/use-workbench-canvas-controls.ts and the comparison
--               of circuits in ui/workbench-model-utils.ts: the history and the step of the slider.
--   Canvas      components/use-circuit-canvas-interactions.ts: the circuits that a move, a deletion and a
--               change of columns hand on. Canvas/Gates and Canvas/Selection are its other handlers, with
--               the cells of circuit-canvas-helpers.tsx.
--   Qasm        qasm/qasm-parser.ts with qasm-parser-utils.ts, qasm-parser-types.ts and qasm-errors.ts
--               (Statements, Parser), and qasm/qasm-bridge.ts (Serializer). A statement is a value: what
--               the regular expressions of qasm-parser-types.ts recognise in its text.
--   Task/Stream api/task-stream.ts, under frontend/src: the buffering of the event stream.
--   Draft       ui/draft-storage.ts: the draft of the workbench in localStorage.
--   Base        lists, predicates on lists, sorting, decimal texts.
--   Examples    the theorems at concrete circuits.
-- A function keeps its name, in lower case with underscores. A function that throws returns a `Thrown`
-- value, and a result with `ok` is an option or a data type of the two cases.
--
-- Numbers of qubits, layers, counts and steps are natural numbers; where the source accepts a negative
-- count or step, the argument is an integer. A callback of the event stream may close the connection:
-- whether it does is a function of the calls up to then, the parameter `closes`. The parameters of gates are of a type that the
-- definitions take as an argument, since nothing here computes with them. The order of the ids is the
-- host's `localeCompare`, the parameter `Collation`: a total preorder, as ECMA-402 says. What the OpenQASM
-- parser and serializer call of JavaScript, with the texts of numbers, is the parameter `Host`; so are
-- `StreamHost` for the event stream, `DraftHost` for the drafts and `Probabilities` for the filter. The id that
-- `Date.now()` and `Math.random()` make is an argument of `add_operation`. No function needs fuel:
-- each is recursive on a list, but for the decimal digits of the ids that replace empty ones, where n
-- has at most n + 1 digits.
--
-- Not modelled: how an OpenQASM text is cut into statements and matched with the regular expressions, the
-- editor support of qasm/qasm-monaco.ts, the computation of the simulation, the
-- projects, and the views. The messages of errors are left out, with what they name kept.

pub mod Base
pub mod Gate
pub mod Circuit
pub mod History
pub mod TimeStep
pub mod Placement
pub mod Submission
pub mod Template
pub mod Task
pub mod Simulation
pub mod Editor
pub mod Canvas
pub mod Qasm
pub mod Draft
pub mod Examples
