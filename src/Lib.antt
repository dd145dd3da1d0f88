-- ===== src/Lib.antt =====
-- A model of kovern, a Kubernetes operator that limits what agents spend on language models and stops
-- agents that loop.
--
-- The parts and how they interact
--   The ledger (internal/ledger/cache.go) holds an entry per service account. The quota reconciler
--   (internal/controller/tokenquota_controller.go) copies TokenQuota objects to it, resets entries at
--   their renewal and copies entries back to the objects' status. The OTLP receiver
--   (internal/otelreceiver/receiver.go) records the cost of spans in the ledger, with the prices of
--   internal/pricing/pricing.go, and their tool calls in the span store. The admission webhook
--   (internal/webhook/admission.go) asks the ledger whether a pod may start. The heuristic engine
--   (internal/heuristic/engine.go) counts the tool calls of each pod in the span store and hands a
--   looping pod to the remediation executor (internal/remediation/executor.go). The semantic detectors
--   (internal/detector) ask a language model; no other part calls them.
--
-- The files
--   Prelude    shared names; int and int64 with wrap-around (Int), strings as lists of code points
--              (Text), association lists for maps (Dict), a value or an error (Result).
--   Float      float64 as an interface. Theorems that compare spends assume IsIeee, laws of IEEE 754
--              arithmetic with rounding to nearest, the infinities and NaN included, where float64 of a
--              number beyond int64 is that of the nearest int64. Float/Fixed is an instance, fixed-point
--              numbers of millionths, that satisfies the laws and that the examples compute with;
--              Float/Extended is another, with infinities and NaN.
--   Time       the part of Go's time package that is used, on nanoseconds since the year 1; Calendar
--              has AddDate on the proleptic Gregorian calendar in UTC.
--   Api        api/v1alpha1: the custom resources, without their lists of conditions, which no code
--              reads or writes.
--   Cluster    Kubernetes pods and workloads, and (Client) the client library as an interface over a
--              state of the cluster.
--   Ledger     Cache and its methods. Keys: when two keys are equal. Lookups: Get after each method.
--              Limits: computeState. Budgets: states that a spend never gives. Runs: any sequence of
--              calls. Counts, Exhaustion: totals and used-up budgets under any sequence of calls.
--              Views: the ledger as a map, a quotient that forgets the order of its list.
--   Webhook    the handler. Decisions: when it refuses. Enforcement: with the ledger, over time.
--              Views: on the ledger as a map.
--   Quota      Reconcile. Renewals: what each of its branches does. Staleness: lost spends. Cycles:
--              rounds over time. Calls: a reconciliation as calls of the ledger. Restarts: what a new
--              process makes of a status. Failures: refused status updates.
--   Spans      SpanStore. Windows: Record, Window and Trim against each other.
--   Pricing    the price table and Estimate. Globs: path.Match. Tables: the sort. Overrides: Set. Choices: which price
--              is taken. Defaults: the built-in table. Signs: the sign of a cost.
--              Families: the price of a family of models.
--   Receiver   ServeHTTP and recordSpend. Attributes: the OTLP types and their attributes. Usage:
--              which spans are billed. Visits: the loops as one pass over the spans. Requests: what a
--              request does. Calls, Charges: the tool calls and the costs that it reports.
--              Enforcement: with the webhook.
--   Heuristic  the engine. Tallies: the count of the most called tool. Remediations: when a pod is
--              remediated. Cooldowns: how far apart its remediations are. Calls, Marks, Effects,
--              Evaluations: what an evaluation of all policies and pods does to and for one pod. Requests,
--              Reports: with the receiver. Starts: the loop of Start in time; Returns: that it ends.
--   Remediation  the executor. Reports: what Remediate does and reports. Calls: what all of its calls
--              keep.
--   Detector   internal/detector: the prompt, the providers and the reading of answers. Verdicts: what
--              is concluded, and when.
--   Policy     the reconciler of LivelockPolicy objects (internal/controller/
--              livelockpolicy_controller.go), which only logs.
--   Operator   cmd/main.go: one state with the stores that its parts share, and the operations of the
--              parts on it. Startup: the flags and main itself. Steps: an indexed step relation whose runs are the interleavings of the parts.
--              Operations, Evaluations: each operation as such a run. Safety: what holds in every run.
--              Requests, Refusals: what a trace request does to the ledger, and does not to a refusal.
--              Readmissions: pods after a renewal. Detections: from a trace request to a
--              remediation. Events: sequences of whole operations; Budgets, Promises: a used-up budget
--              under them.
--   Memory     a memory of cells with addresses. Layouts: what stored structures stand for. Copies: when
--              a routine makes deep copies, and how such routines compose. Writes: assignments.
--   DeepCopy   api/v1alpha1/zz_generated_deepcopy.go. Objects, Cells: the custom resources as they lie
--              in memory. Views: what they stand for. Quotas, Policies: that the copies are deep.
--              Separation: that an object and its copy share no memory. Package: all copies.
--   Tests      the theorems at concrete inputs.
--
-- State and concurrency
--   A method becomes a function from the state to the new state and the result. The methods of Cache
--   and SpanStore hold their lock from the first to the last line, so concurrent callers amount to a
--   sequence of calls, and the theorems of Ledger/Runs, Counts and Exhaustion are about every
--   sequence. The steps of Operator are such calls, of both stores, and the engine's look at one pod,
--   which reads the span store once. Clock readings, answers of the Kubernetes API and of the model
--   providers, and the JSON decoder are arguments. Objects are values, which is what their deep copies
--   allow: only these are modelled on a memory with pointers. An error value is its text.
--
-- Bounds
--   int and int64 results wrap at 64 bits, also where a Duration is computed from a configured window.
--   Times do not wrap, and the difference of two times stops at the ends of a Duration. Loops are
--   structural recursion on the list that they range over, so no fuel is needed,
--   but for the printing of a number, whose fuel is more than its digits, and for the loop of Start,
--   whose fuel bounds its rounds: one for each interval until the context is cancelled.
--
-- Not modelled
--   The server's answer to a status update, which the client library copies back to the object: the
--   object stays as it was sent. (The library cuts times to seconds.) SetupWithManager, the HTTP multiplexer, scheme registration; the log
--   lines other than those of main and of the LivelockPolicy reconciler, except that a call whose
--   result is only logged is still made; reads of a map in Go's random order follow the association
--   list.
--   Strings are sequences of code points: a text that is not valid UTF-8 has no counterpart.
pub mod Prelude
pub mod Float
pub mod Time
pub mod Api
pub mod Ledger
pub mod Cluster
pub mod Webhook
pub mod Quota
pub mod Spans
pub mod Heuristic
pub mod Remediation
pub mod Pricing
pub mod Receiver
pub mod Detector
pub mod Policy
pub mod Memory
pub mod DeepCopy
pub mod Operator
pub mod Tests
