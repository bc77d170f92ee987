-- ===== src/Server/History.antt =====
-- server/websocket.py: the states that a server with any number of connections can reach, whatever
-- order their messages come in.
use py_fdc3_desktop_agent.Sessions.{AnyUrl}
use py_fdc3_desktop_agent.Base.{String, ◌≡◌, Bool, false, Option, none, some, []}
use py_fdc3_desktop_agent.Base.Dict.{Dict, get, put, remove}
use py_fdc3_desktop_agent.Core.Apps.History as AppHistory
use py_fdc3_desktop_agent.Core.Apps.{AppRegistry, empty_registry, register_pending_instance}
use py_fdc3_desktop_agent.Core.Apps.Connection.{connected, register_pending-IsTracked}
use py_fdc3_desktop_agent.Core.Channels.State.{init}
use py_fdc3_desktop_agent.Core.Channels.Steps.{run}
use py_fdc3_desktop_agent.Core.Channels.Invariant.{run-IsConsistent}
use py_fdc3_desktop_agent.Core.Channels.Guarded.{run-IsGuarded}
use py_fdc3_desktop_agent.Core.Listeners.{ListenerStore, empty_store}
use py_fdc3_desktop_agent.Core.Listeners.Index.{IsFresh}
use py_fdc3_desktop_agent.Core.Listeners.History as ListenerHistory
use py_fdc3_desktop_agent.Core.External.{ExternalRegistry, no_handlers}
use py_fdc3_desktop_agent.Core.External.Disconnect as ExternalHistory
use py_fdc3_desktop_agent.Connections.Clients.{no_clients}
use py_fdc3_desktop_agent.Wcp.{AppMetadata}
use py_fdc3_desktop_agent.Server.{Server, Socket, Frame, Reads, cleanup}
use py_fdc3_desktop_agent.Server.Turns.{turn}
use py_fdc3_desktop_agent.Server.Soundness.{IsSound, turn-IsSound, cleanup-IsSound}

-- A server and the endpoints that are running, by their sockets.
pub record World : Type 0 where
  pub server : Server
  pub sockets : Dict Socket

abbrev new_socket : String → Socket
new_socket websocket = record { websocket = websocket; session_id = none; dacp_active = false }

abbrev with_registry : Server → AppRegistry → Server
with_registry s r = record s { agent = record s.agent { app_registry = r } }

abbrev with_listeners : Server → ListenerStore → Server
with_listeners s l = record s { agent = record s.agent { listener_store = l } }

abbrev with_handlers : Server → ExternalRegistry → Server
with_handlers s r = record s { connections = record s.connections { external_registry = r } }

-- What may happen next: a connection is accepted, a running one receives a text or ends, in any
-- order; and the handlers of the other requests launch an application, or call the store of
-- listeners or the registry of external handlers. A listener's uuid is new.
module _ (netloc : AnyUrl → Option String) (get_app_metadata : String → Option AppMetadata)
    (bridge_enabled : Bool) (delivers : String → Bool) where
  pub data Step (x : World) : World → Type 0 where
    connected_socket :
        (websocket : String)
        → Step x (record x { sockets = put x.sockets websocket (new_socket websocket) })
    received_frame :
        (websocket : String) (socket : Socket) (w : Reads) (frame : Frame)
        → get x.sockets websocket ≡ some socket
        → IsFresh x.server.agent.listener_store w.fresh_uuid
        → Step x (record {
          server =
              (turn netloc get_app_metadata bridge_enabled delivers x.server socket w frame).server;
          sockets =
              put x.sockets websocket
                (turn netloc get_app_metadata bridge_enabled delivers x.server socket w
                  frame).socket;
        })
    ended_socket :
        (websocket : String) (socket : Socket) (now : String)
        → get x.sockets websocket ≡ some socket
        → Step x (record {
          server = (cleanup delivers x.server socket now).0;
          sockets = remove x.sockets websocket;
        })
    launched :
        (app_id instance_id i : String)
        → connected x.server.agent.app_registry i ≡ false
        → Step x (record x {
          server =
              with_registry x.server
                (register_pending_instance x.server.agent.app_registry app_id instance_id i).0;
        })
    listened :
        (l : ListenerStore)
        → ListenerHistory.Step x.server.agent.listener_store l
        → Step x (record x { server = with_listeners x.server l })
    handlers_changed :
        (r : ExternalRegistry)
        → ExternalHistory.Step x.server.connections.external_registry r
        → Step x (record x { server = with_handlers x.server r })

  -- A server that has just started.
  abbrev pub started : World
  started = record {
    server = record {
      agent = record {
        channel_manager = init;
        listener_store = empty_store;
        app_registry = empty_registry;
        default_user_channels_ready = false;
        bridged = bridge_enabled;
      };
      connections = record { connections = []; external_registry = no_handlers };
      clients = no_clients;
      wcp_sessions = [];
    };
    sockets = [];
  }

  pub data Reach : World → Type 0 where
    start : Reach started
    next : {x y : World} → Reach x → Step x y → Reach y

  Step-IsSound : {x y : World} → Step x y → IsSound x.server → IsSound y.server
  Step-IsSound {x} (connected_socket websocket) v = v
  Step-IsSound {x} (received_frame websocket socket w frame e fresh) v =
      turn-IsSound netloc get_app_metadata bridge_enabled delivers x.server socket w frame fresh v
  Step-IsSound {x} (ended_socket websocket socket now e) v =
      cleanup-IsSound delivers x.server socket.websocket socket.session_id socket.dacp_active now v
  Step-IsSound {x} (launched app_id instance_id i h) v = record {
    consistent = v.consistent;
    guarded = v.guarded;
    tracked =
        register_pending-IsTracked x.server.agent.app_registry app_id instance_id i v.tracked h;
    indexed = v.indexed;
    filed = v.filed;
  }
  Step-IsSound {x} (listened l st) v = record {
    consistent = v.consistent;
    guarded = v.guarded;
    tracked = v.tracked;
    indexed = ListenerHistory.Step-IsIndexed st v.indexed;
    filed = v.filed;
  }
  Step-IsSound {x} (handlers_changed r st) v = record {
    consistent = v.consistent;
    guarded = v.guarded;
    tracked = v.tracked;
    indexed = v.indexed;
    filed = ExternalHistory.Step-IsFiled st v.filed;
  }

  -- In every state that a server reaches, in whatever order its connections are accepted, send
  -- handshakes and channel requests, and end, while instances are launched, listeners added and
  -- external handlers registered: the channels are consistent and guarded, the connection events
  -- follow the instances, the listeners are indexed, and the external handlers are filed.
  pub Reach-IsSound : {x : World} → Reach x → IsSound x.server
  unfolding run
  Reach-IsSound start = record {
    consistent = run-IsConsistent [];
    guarded = run-IsGuarded [];
    tracked = AppHistory.Reach-IsTracked AppHistory.start;
    indexed = ListenerHistory.Reach-IsIndexed ListenerHistory.start;
    filed = ExternalHistory.Reach-IsFiled ExternalHistory.start;
  }
  Reach-IsSound (next r st) = Step-IsSound st (Reach-IsSound r)
