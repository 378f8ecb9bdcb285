-- ===== src/Lib.antt =====
-- Urara Vision reads a directory of data model documents and serves it as one connected model. The
-- Go program under backend/ has a parser of the documents, a graph builder, a reader of translated
-- prose, a comparison of two models, stores, and an HTTP service with a chat agent. This development
-- models what lies between the parser and the stores, backend/internal/model, graph, i18ntext and
-- diff, and of the service the roles, the login limit, the permissions of routes, the notes, and the
-- chat agent with its tools and limits.
--
-- The parts, and the files of backend/internal that they model:
--   Base      what Go and its standard library give: bytes, strings, maps, sorting, printing.
--   Model     model/model.go, the data; Model/Roles, model/roles.go.
--   Graph     graph/: Ids (ids.go), Registry (registry.go), Orient (orient.go, and columnSet of
--             drift.go), Resolve (resolve.go), Edges (edges.go), Sources (sources.go), Domains
--             (domains.go), Drift (drift.go), and Build (build.go), which composes the stages in the
--             order of the source and hands the diagnostics of one to the next.
--   I18n      i18ntext/i18ntext.go; I18n/Prose, i18ntext/prose.go, which Build calls for Check.
--   Diff      diff/diff.go, with its types in Diff/Types and its walk in Diff/Walk; Diff/Keys,
--             diff/keys.go. It compares two models that Build made.
--   Access    Access/Roles, auth/roles.go; Access/Limits, api/ratelimit.go: who may do what, and how
--             often a login may fail; Access/Routes, api/permissions.go and auth/principal.go: which
--             requests are let through.
--   Chat      the chat agent, which answers questions about the model: Chat/Llm, chat/llm/llm.go;
--             Chat/History, chat/agent/history.go; Chat/Prompts, chat/agent/prompts.go; Chat/Agent
--             and Chat/Agent/Loop, chat/agent/agent.go and loop.go; Chat/Tools, chat/tools, with a
--             module for each file (Fields, Checks and Validate for validate.go, Shrink and Results for
--             shrink.go, Runs for tools.go) and Backend for chat/apiclient/types.go; Chat/Limits,
--             chat/httpapi/limits.go; Chat/Citations and Chat/Card, chat/agent/citations.go and card.go.
--             The loop calls the model and the tools, a tool is Guard around
--             Validate and Runs, and Limits stands before each turn. Chat/Notes, notes/anchor.go.
--   Parser    Parser/Tables and Parser/Rows, parser/mdtable.go: the markdown tables of a text, and one
--             row; Parser/Kinds, parser/normalise.go: the role a type label or a table's name stands for.
--   Eval      chateval/score.go: how an answer of the agent is scored.
--   Examples  the theorems applied to a small project.
-- A module under one of these, such as Graph/Resolve/Bound, proves what its name says.
--
-- How the source is read:
--   A struct is a record and a slice a list. A map is an association list without repeated keys, in
--   the order of first insertion; where the source ranges over a map, that is the order taken, since
--   Go leaves it open. It shows in the diagnostics of collectSources, before they are sorted, and in
--   the bases of pairIndex, where it matters only if a key holds a '#'.
--   A function that writes through a pointer returns what it writes: the model, the tables or the
--   diagnostics that it appends. The pointers of the registry are modelled by the tables they point
--   to when it is built, which is right for the fields that are read through them.
--   A string is the list of its bytes. strings.ToLower, strings.ToUpper, strings.TrimSpace and %q are
--   modelled on ASCII; bytes of longer runes pass through them unchanged, and %q takes these runes to
--   be printable. A byte of such a rune is no identifier byte and no tag byte, as in the source.
--   The cells of a row are split byte by byte and not rune by rune, which differs only on text that is
--   not UTF-8, where Go would put a replacement rune.
--   The regular expressions are scanners: isSourceRef reads words and single dots, the divider of a
--   table is read piece by piece between its pipes, and a marker is an
--   open bracket, blanks, a supported tag in any case (the first in order that fits), blanks and a
--   close bracket; a match is taken from left to right.
--   sort.Slice and sort.SliceStable are one stable insertion sort. sort.Slice may place equal items
--   otherwise, and the edges are the one place where distinct items compare equal.
--   A clock is a number of nanoseconds, given to each operation that reads it.
--   int is an unbounded natural number: every int here counts items in memory.
--   The scan for a marker and the printing of a number take fuel: as many steps as the text has bytes
--   and one more than the number, and each step uses up a byte or a digit.
--   JSON: encoding/json is a parameter where it parses or prints. A value of type any is a value of
--   JSON, its objects in the order of their keys. A json.RawMessage is its text where the program
--   only passes it on, and its value where the program reads it.
--   The language model, the tools' backend and the card are parameters of the agent. They may answer
--   every round differently, so the round is an argument; of the tools that fail in one round, which
--   run side by side, a parameter says which came first. Logs and times are left out.
--   The search for the occurrences of an identifier takes fuel: one step for each byte of the text, and
--   each occurrence takes at least one.
--   The loop of a turn takes fuel: two more than the limit on rounds, since each round of tools is
--   counted against the limit, one pass may refuse, and one pass answers.
--   A limiter's callers and a conversation's turns are lists that steps change in one place; the
--   pointer to a lock is its place in a store, so that a turn may hold a lock that the map no longer
--   has.
--   sha1.Sum is a parameter of every definition that calls it; no theorem supposes anything of it.
--
-- Not modelled: the rest of the parser (its Result is modelled as the input of Build), the project
-- manifest, sessions, the HTTP handlers and clients, the runs and summaries of the evaluation, the
-- stores and the frontend. The stores, handlers and clients are input and
-- output; the others are still to be done.
pub mod Base
pub mod Model
pub mod Graph
pub mod I18n
pub mod Diff
pub mod Access
pub mod Chat
pub mod Parser
pub mod Eval
pub mod Examples
