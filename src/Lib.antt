-- ===== src/Lib.antt =====
-- A model of the core of LangGraph, and what it guarantees.
--
-- LangGraph runs a graph of nodes in steps. The nodes communicate through channels. In each step the
-- nodes whose channels have changed run, their writes are applied to the channels, and the channels
-- are stored as a checkpoint, from which a run goes on later. The parts, and where each is modelled:
--
-- libs/langgraph/langgraph/channels: Channels. A class is a module of Channels with its state as a
--   record (LastValue, Topic, ...) and a function for each method; Channels.Channel is the sum of the
--   classes, with the methods that dispatch on the class (`BaseChannel`). MISSING is `none`.
-- libs/langgraph/langgraph/pregel/_algo.py: Pregel.Task (`task_path_str`, and the order of tasks),
--   Pregel.ApplyWrites (`apply_writes`, a function for each of its loops) and Pregel.NextTasks
--   (`should_interrupt`, `_triggers`, `_proc_input`, the PULL tasks of `prepare_next_tasks`).
-- libs/langgraph/langgraph/pregel/_io.py: Pregel.Io, and Pregel.Commands (`map_command`).
-- libs/langgraph/langgraph/pregel/_checkpoint.py: Pregel.Checkpointing, on the record of
--   Pregel.Checkpoint.
-- libs/checkpoint/langgraph/checkpoint/memory and base: Checkpointer.InMemorySaver, with the keys of
--   its tables in Checkpointer.Keys and `get_checkpoint_metadata` in Checkpointer.Metadata.
--   Checkpointer.Listing is its method `list`.
-- libs/langgraph/langgraph/graph/message.py: Graph.AddMessages (`add_messages`) and Graph.Message
--   (`_messages_delta_reducer`, the reducer of messages for a DeltaChannel).
-- libs/sdk-py/langgraph_sdk: Sdk.Lines (`BytesLineDecoder`) and Sdk.Events (`SSEDecoder`), both of
--   sse.py; Sdk.Feed, Sdk.Http and Sdk.Stream, the method `stream` of _sync/http.py with its
--   reconnections. Bytes are lists of numbers; the JSON parser, `urlparse` and the server's answers
--   are parameters.
-- libs/langgraph/langgraph/pregel/_loop.py: Loop.State (`PregelLoop` and what it is built with),
--   Loop.Put (`_put_checkpoint`), Loop.Pending (`put_writes` and what is given back of it) and
--   Loop.Tick (`tick`, `after_tick`). Loop.Run has `commit` of _runner.py, `schedule_error_handler`,
--   which gets the task of the handler as an argument, and the `while` of `Pregel.stream` in main.py.
--   The calls of the checkpointer are kept in a list.
-- libs/checkpoint/langgraph/store: Store. Store.InMemoryStore is the store of memory/__init__.py
--   without an index, with its filters (Store.Filter) and the matching of namespaces
--   (Store.Namespaces); Store.BaseStore has the methods of base/__init__.py on it.
-- libs/checkpoint/langgraph/cache: Cache.InMemoryCache, the cache of memory/__init__.py.
--
-- `apply_writes` updates the channels and their versions; `create_checkpoint` makes a checkpoint of
-- both; the saver stores it and gives it back; `channels_from_checkpoint` makes channels of it again.
-- The loop calls `prepare_next_tasks` in a tick and `apply_writes` and `create_checkpoint` after it.
--
-- How it is modelled. A Python value is a `Value` (Values): None, bool, numbers, texts, lists, tuples,
-- sets, dicts, and instances of Overwrite, _DeltaSnapshot and Send. A dict is a list of its items in
-- the order in which they came in (Dict; Table where the keys are tuples). A method that changes its
-- object gives the object back beside its result, also where it raises (Method). Versions of channels
-- are integers, as `increment` makes them. The functions that a caller supplies, which are operators,
-- reducers and `get_next_version`, are arguments, and so is the serializer, a record of its functions
-- and of the laws that the saver relies on (Checkpointer.Serde).
--
-- Bounds and fuel. The numbers of Python have no bound, and those here have none. Every loop is
-- recursion on a list or on a value, but for three on fuel. The digits of a number in `pad_ten` have
-- one more unit than the number, and each digit takes one and divides the number by ten. The requests
-- of `stream` have one more than the reconnections that it counts, and the supersteps of `run` as many
-- as up to `stop` and two more; both loops are shown to end with that.
--
-- Not modelled: threads, futures, streams, callbacks and retries around the loop (pregel/_runner.py,
-- _retry.py, main.py), what the loop does where it is entered and left (`_first`, `__enter__`,
-- `_suppress_interrupt`), the preparation and the resumption of error handlers, cached writes, the
-- graph builder (graph/state.py), managed values, PUSH tasks, the metadata and runnables of tasks, the
-- vectors of a store with an index, the serializers, the savers and stores over databases, the command
-- line, the other requests of the client SDK, and a response of a server that never ends. They are
-- glue to third-party libraries and to the operating system, or need these parts first.
pub mod Prelude
pub mod Method
pub mod Values
pub mod Dict
pub mod Table
pub mod Channels
pub mod Pregel
pub mod Checkpointer
pub mod Graph
pub mod Sdk
pub mod Store
pub mod Cache
pub mod Loop
