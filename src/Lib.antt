-- ===== src/Lib.antt =====
-- py-fdc3-desktop-agent: an FDC3 desktop agent. Applications connect to it, join channels, broadcast
-- contexts, and raise intents, which other applications or external handlers serve.
--
-- The services under fdc3/desktop_agent/core/ hold the state, and the message handlers call them.
-- The paths below are those of files under fdc3/desktop_agent/:
--   Core/Channels     core/channel_manager.py with channel_types.py, channel_context.py and
--                     channel_events.py: channels, members, private channels and invites, contexts
--                     per channel, event subscriptions
--   Core/Listeners    core/listener_store.py: context, intent and event listeners, by instance
--   Core/Apps         core/app_registry.py: app instances, pending or connected
--   Core/External     core/external_registry.py: handlers of intents outside the agent
--   Core/Intents      core/intent_resolver.py: which instance serves an intent
--   Core/Routing      core/context_router.py: who receives a broadcast; it reads the listener store
--                     and calls the channel manager
--   Core/Pending      the pending intents of core/__init__.py, with futures and event loops
--   Dacp              handlers/dacp/base.py (sessions, responses, default channels, events) and
--                     handlers/dacp/channel.py: the handlers of the requests on channels, which
--                     read and change the services and send messages
--   AccessControl     access_control/__init__.py and handlers/access_control.py: which origins may
--                     connect. The network location that urlparse finds in an origin, if it does
--                     not raise, is a parameter
--   Connections       handlers/connection_manager.py and server/connection_manager.py: the open
--                     connections; closing one unregisters its external handlers. Whether a socket
--                     delivers is a parameter
--   Sessions          types.py: what the handshake leaves for the handlers
--   Dacp/Listening    handlers/dacp/event.py: the handlers of the requests on listeners and of
--                     broadcasts
--   Wcp               handlers/wcp.py: the handshake, by which an application says who it is; what
--                     urlparse makes of a URL, which is an object of pydantic's, and the metadata
--                     of an application are parameters
--   Server            server/websocket.py: the endpoint of a connection, which composes access
--                     control, handshake and handlers, removes the connections on which a handler
--                     could not send, and cleans up; any number of connections take turns
--   Plugins           plugins/interfaces.py: the registry of plugins, which are code of the user
--   SystemIntents     handlers/system_intent.py: the intents that the agent serves by opening a
--                     page
--   Dacp/Raising      handlers/dacp/intent.py: raising an intent, which a remote agent, the agent
--                     itself, a plugin, an external handler or a listener serves. A raise that
--                     waits for an external handler is two functions, up to the wait and after it,
--                     so that anything may happen between them
--   Bridge            bridging/router.py: the requests and events of other desktop agents. The
--                     DACP handler is a parameter, which may answer anything; a JSON value is
--                     Base/Json's
--   Dacp/Apps         handlers/dacp/app.py: the handlers of the requests on applications. Opening
--                     one is three functions, with the launch and the wait for the connection
--                     between them. The storage, the launcher and the bridge are parameters
--   Dacp/Finding      handlers/dacp/intent.py: findIntent, with the result types that match. The
--                     fields of the metadata that getattr reads and the class lacks are none
--   Base              Python's dict (an association list in insertion order) and set with text keys
--
-- A service is a record of its attributes, and a method is a function of the record and the
-- arguments that returns the new record and what the method returns or sends: the fields and the
-- functions have the names of the attributes and the methods, private ones without the underscore.
-- A method runs to its end before the next (the channel manager's run under its lock, and the
-- others do not suspend), so a method is one step; histories are lists of calls, or chains of
-- steps. What a method reads from the world is an argument: the time, and a fresh uuid (Python's
-- uuid4), whose freshness is a hypothesis where it is needed. A raised exception is `none`, or an
-- outcome of its own where a method has several. Text is Unicode text, a priority an unbounded
-- integer. Loops are recursions on the list that they walk; the one fuel is that of `decimal`,
-- which prints n in at most n divisions by ten.
--
-- Logging is left out; callbacks, futures, loops and sockets are references. Of the message
-- handlers those of the WCP handshake, those on channels, listeners and broadcasts, and the
-- raising of intents are modelled, those on applications, and what the router makes of the
-- messages of the bridge to other agents; finding intents by a context, raising one for a context,
-- and the connection to the bridge are not. The network, storage, launcher and configuration code,
-- the GraphQL interface and the message models are not modelled: they are input and output, or
-- declarations without logic.
pub mod Base
pub mod Core
pub mod Sessions
pub mod Dacp
pub mod AccessControl
pub mod Connections
pub mod Wcp
pub mod SystemIntents
pub mod Plugins
pub mod Server
pub mod Bridge
