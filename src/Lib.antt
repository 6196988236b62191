-- ===== src/Lib.antt =====
-- Questock answers questions on three Korean stocks from recorded evidence. A chat request goes
-- through the session of its user, a cache of responses, an admission control for calls of the
-- model, and a chain of planning, retrieval, policy and answer (app/services/chat_service.py).
-- This library models the stateful services that the chain stands on, and the chain of the
-- evidence: the fetch from the providers, the hard filter, the freshness, the lexical
-- retrieval, the policy that decides, and the choice of what goes to the model.
--
-- The parts and their files:
-- - ResponseCache: app/services/response_cache.py. ResponseCache.init, get, put and size_now
--   are the methods of the class of that name, Key.cache_key is `_cache_key`. Reads, Ages and
--   Eviction are about the results and the evictions of the methods, Invariant is about runs of
--   them.
-- - SessionStore: app/services/session_store.py. get, put, state, revision, append_exchange and
--   size_now are methods of `InMemorySessionStore`, Conversation.conversation_context is the
--   last one; Exchange and Text are the checks of texts and labels and their regular
--   expressions. Serialized cuts the context manager `serialized` at its awaits, and
--   Interleaving lets any number of requests take those parts in any order; Exclusion and
--   SerializedValid are about all such orders.
-- - RequestProtection: app/services/request_protection.py. start and finish are the two halves
--   of `RequestProtector.admit`, Concurrent lets attempts interleave, Limits and Rule are about
--   the limits, Lost is about a clock that fails.
-- - Providers: app/providers/base.py. Providers has `create_provider_result`, the keys and
--   `InMemoryTTLCache` (get and set); Fetch has `fetch_with_policy` as a loop over attempts,
--   each given by what its call comes to and by the readings of the clocks, and
--   `fetch_required_providers` over what has become of its tasks. Canonical and Attempts are
--   about the results.
-- - Core: app/core. Models, Evidence and Plan are models of models.py and status.py with their
--   validators; Records, Resolver and Resolver.Resolve are resolver.py: Records has the records
--   of a fixture and their checks, Resolver fills the five tables that `_load_fixture` fills,
--   and Resolve is `resolve`. Loading, Registering and Steps are about the filling, Precedence
--   and Contract about the results.
-- - Retrieval: app/retrieval. Filters is filters.py, with the documents of models.py; Tokens,
--   Scores and Retriever are retriever.py: the tokens of a text with the regular expressions as
--   matchers, BM25, and `retrieve_evidence`. Refines, Relevant, Sources, Counts and Matches are
--   about the evidence that is returned, with Ranking, Shares and Lengths.
-- - Evidence: app/evidence. Selection is selection.py; CallBudget and Budget are budget.py:
--   Budget has the steps of `select_evidence_context` and Select the whole with its audit; Caps
--   and Total are about them. Freshness is freshness.py: Candidates links items to documents,
--   Disclosures has the metadata of disclosures, Corrections the graph of those that correct
--   others, Windows has the windows of dates, and Evaluate the whole; Walk and Retained are
--   about the whole, with Ends, Follow, Linked and OwnWindows. Policy is policy.py: Inputs and
--   Results check what `evaluate` is given, Decide has the decision and the audit of it; Audit
--   is about the whole, and Composed about the freshness, the retriever and the policy one
--   after the other, with Coverage, Sources, Accepted, Occurrences, FreshWindows, FreshWarnings
--   and FreshAccepted.
-- - Exec, Clock, Dict, Prelude: Python methods that change an object and return or raise, with
--   a logic of triples; the test that a clock does not run back; dictionaries in the order of
--   insertion; strings as lists of code points, lists, and sorting.
--
-- The parts meet in their data: the filter of Retrieval is the first step of the retriever, the
-- freshness reads the documents of the filter, the policy reads the results of the freshness,
-- the retriever and the providers, and the budget takes the evidence of the decision; the same
-- types of Core stand for those values in all of them.
--
-- A method is a function from the object to its result and the object after it; what is written
-- before a raise stays written. A method that reads a clock takes the reading as an argument,
-- none for a clock that raises or gives no finite number; times are natural numbers of ticks,
-- so floats and their rounding are left out. A score of retrieval is a number of millionths, as
-- it is rounded to six digits. A date is its day counted from 1970-01-01, and Seoul is nine
-- hours ahead of UTC, as it has been since the end of its last summer time in 1988; earlier
-- readings of the wall clock are left out. A check of the Python type of an argument is the
-- type of the argument here. Deep copies are the values themselves. The entry object that a
-- request holds is taken to be the one that the store has under its key.
--
-- Functions are by structural recursion, but for the two walks along corrections, follow and
-- root of Evidence.Freshness.Corrections: a `while` there is a recursion on fuel, and its fuel
-- is one more than the number of edges. A walk out of fuel gives an error of its own.
--
-- Parameters of the model: NFKC, case folding, upper case, the decimal digits of Unicode and
-- SHA-256 (ResponseCache.Key.TextTools, Core.Unicode.Unicode), the writing of JSON
-- (Evidence.Budget.Json) and the equality of pydantic models (an argument of the policy),
-- without hypotheses; the arithmetic of floats (Retrieval.Scores.Floats), of which theorems on
-- scores take that the rounded score of 0.0 is 0. asyncio is modelled by its documented
-- behaviour: tasks switch only where they wait, a lock is taken only when it is free, and a
-- semaphore lets one past only while its count is positive.
--
-- Not modelled: HTTP, Streamlit, the clients of the providers and of the model, files on disk
-- and the scripts, which are input and output. Nor are the planner, the normalisation and the
-- citation of evidence, the answer, the source gateways, and the schemas of recorded snapshots.
pub mod Prelude
pub mod Exec
pub mod Clock
pub mod Dict
pub mod Core
pub mod Evidence
pub mod Providers
pub mod RequestProtection
pub mod ResponseCache
pub mod Retrieval
pub mod SessionStore
