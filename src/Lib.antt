-- ===== src/Lib.antt =====
-- QuickAPI: the verification library of its Python core.
--
-- QuickAPI is a small HTTP framework. A request is built from the server's data and passes the
-- security guard; a router picks the registered route whose method and path template it fits, by
-- way of a native lookup table where one is loaded; a handler is called with the arguments that
-- its parameters name; what it returns is put into one JSON envelope and sent in chunks. Beside
-- this path stands a job queue, which runs functions on a thread pool under a bound.
--
-- The parts and the files that model them (paths from the repository's root):
--
-- - Base: what Python's built-in types do. A text is the list of its code points (Base/Strings,
--   with `lower`, `upper`, `strip`, `split`, `join` and `in`), a dict is an association list that
--   keeps the order of insertion (Base/Dicts), a JSON-like value is a tree (Base/Values), a call
--   that may raise returns a `Result` (Base/Results), `sorted(set(...))` is `sorted_set`
--   (Base/Order). Letter case is that of ASCII.
-- - Http: quickapi/http/request.py (`Request.build`), methods.py and status.py; Http/Header:
--   headers.py (`Headers.__setitem__`, `get`, `_normalize`, `normalize_headers`).
-- - Response: quickapi/response/format.py, factory.py, json_response.py, file_response.py and
--   quickapi/errors. Every method of `ResponseFactory` is `success` or `failure` at its kind.
-- - Routing/Template: `Route._compile_path` and the matching of quickapi/routing/route.py. The
--   regular expression that a template compiles to is a list of pieces (a literal, one segment, the
--   rest), and matching is the greedy search with backtracking that `re` makes. Template/Derivation
--   says independently what it means that a path fits a template.
-- - Routing/Route, Routing/Registry and Routing/Router: `Route`, `RouteRegistry` and `Router` of
--   quickapi/routing, and `NativeRouteBridge` of quickapi/bridge/native_router.py. The compiled
--   library behind the bridge is a parameter.
-- - Security/RateLimit, Security/Guard and Security/Tokens: quickapi/security. The decoding of bytes
--   and the printing of a body are parameters; a time is a number of microseconds.
-- - Jobs: quickapi/jobs/queue.py. The thread pool is kept by how far each job is. A locked block,
--   a call of the semaphore and a change of a future are one operation each, and Jobs/Steps is the
--   step relation in which those of all threads interleave.
-- - App/Authorize: `QuickAPI._authorize` of quickapi/app/application.py.
-- - Middleware: quickapi/middleware.py. What a middleware does outside is kept in a state.
-- - Dependencies: quickapi/dependencies.py and `_dependency_names_for_route` of the application.
-- - Plugins: quickapi/plugins/manager.py. Webhooks: quickapi/webhooks/processor.py, over a digest
--   that is a parameter.
-- - Schema/Issue and Schema/Shape: the issues of quickapi/schema/validator.py and
--   `validate_runtime_shape`. Python's `repr` of a key is a parameter. Schema/Normalize:
--   `_normalize_schema`.
-- - Tools: quickapi/tools/runner.py. What the file system resolves and how a process ends are
--   arguments; `plan` is `run` up to the start of the process, `tool_result` is the rest.
-- - Stores: the registries of quickapi/cache/memory.py, quickapi/storage/session.py and
--   quickapi/db/adapters.py.
-- - Ml: `MLGuard` of quickapi/ml/guard.py and quickapi/ml/intent.py. Ml/Floats is the interface of
--   the floats they calculate with. Ml/Finders and Ml/Sources are the rules that find signals,
--   Ml/Score the score and the action, Ml/Dedupe the list and the worst error of a report, Ml/Guard
--   `inspect`, Ml/Report its dict. Ml/Risk, Ml/Engine and Ml/Synaptic: risk.py, anomaly.py, engine.py
--   and synaptic.py of quickapi/ml.
-- - App/Finalize: `_finalize` of quickapi/app/application.py. App/Pipeline: `_handle_request_sync`,
--   `_handle_request_async`, `handle` and `handle_async`, over the security guard, the router, the
--   authorisation, the guard of Ml and the dependencies. Each `return` of the code is a function
--   that goes on to the next.
-- - App/Builtin: `_handle_builtin` of quickapi/app/application.py, over Jobs and Plugins. What a page
--   shows and what a service does with the body it is posted are fields of `Services`.
-- - Asgi: `_read_body`, `_send_response`, `_lifespan` and, in Asgi/Call, `__call__` of quickapi/asgi.py,
--   over the messages that are received and sent, and quickapi/app/lifecycle.py.
--
-- State is passed explicitly: an operation that changes an object takes the record and returns it.
-- Clocks, drawn ids and the results of user code are arguments. An exception is a value.
-- A middleware, a handler, a provider and a model of the engine may raise, and a middleware may
-- return what is no response.
--
-- Bounds and fuel: the compilation of a template is recursion on fuel, the length of the template,
-- and each piece takes a character at least; `show_pieces-compile_path` says that no part of the
-- template is lost, so the fuel is enough. The chunks of a payload have its length as fuel,
-- as each takes a byte. A number is printed with its successor as fuel,
-- and each of its digits takes one. Everything else is structural. Python's
-- integers are unbounded, and so are these.
--
-- Not modelled: the decorators and servers of quickapi/app/application.py, the rules of
-- quickapi/schema/validator.py on a schema (`validate_payload`), the logistic model of
-- quickapi/ml/model.py, the servers and sockets, the file system, the JSON encoder, the command line, the
-- OpenAPI and playground pages, the providers of language models, and the native code: most of
-- these are input and output, pages, or calls of other libraries.
pub mod Base
pub mod Http
pub mod Response
pub mod Routing
pub mod Security
pub mod Jobs
pub mod App
pub mod Asgi
pub mod Dependencies
pub mod Middleware
pub mod Ml
pub mod Plugins
pub mod Schema
pub mod Stores
pub mod Tools
pub mod Webhooks
pub mod Tests
