-- ===== src/Server/Soundness.antt =====
-- server/websocket.py: what holds of all the services together, and that every turn and every
-- cleanup keeps it.
use py_fdc3_desktop_agent.Base.{
  true, false, not, if◌then◌else◌, List, [], ◌∷◌, String, refl, Bool, Option, none, some, arith,
  subst, sym,
}
use py_fdc3_desktop_agent.Base.Dict.{get}
use py_fdc3_desktop_agent.Core.Apps.Connection.{IsTracked, unregister-IsTracked}
use py_fdc3_desktop_agent.Core.Channels.Steps.{leave, step}
use py_fdc3_desktop_agent.Core.Channels.Invariant.{IsConsistent, step-IsConsistent}
use py_fdc3_desktop_agent.Core.Channels.Guarding.{IsGuarded}
use py_fdc3_desktop_agent.Core.Channels.Guarded.{step-IsGuarded}
use py_fdc3_desktop_agent.Core.Listeners.Index.{IsIndexed, IsFresh}
use py_fdc3_desktop_agent.Core.Listeners.Removal.{remove_instance-IsIndexed}
use py_fdc3_desktop_agent.Core.External.Record.{IsFiled}
use py_fdc3_desktop_agent.Core.External.Disconnect as ExternalHistory
use py_fdc3_desktop_agent.Connections.Instances.{
  Connections, send_to_instance, remove_connection, add_connection,
}
use py_fdc3_desktop_agent.Dacp.Agent.{Message}
use py_fdc3_desktop_agent.Dacp.Channels.Requests.{handle}
use py_fdc3_desktop_agent.Dacp.Listening.Requests.{handle_event}
use py_fdc3_desktop_agent.Dacp.Channels.Keeping.{handle-IsConsistent}
use py_fdc3_desktop_agent.Dacp.Channels.Services.{handle-Kept}
use py_fdc3_desktop_agent.Dacp.Listening.Keeping.{handle_event-Holds}
use py_fdc3_desktop_agent.Sessions.{AnyUrl, WcpSessions}
use py_fdc3_desktop_agent.Wcp.{AppMetadata, Answer, Transition, stay, dacp, disconnected, failed}
use py_fdc3_desktop_agent.Wcp.Registry.{handle_message-IsTracked}
use py_fdc3_desktop_agent.Server.{
  Server, Socket, Frame, Reads, wcp_message, channel_request, event_request, unknown_message,
  no_object, register_instance_connection, add_if, uuid_of, cleanup, cleanup_instance, cleanup_uuid,
  forget_session, id_or_empty, incoming_of, maybe_set_session_id,
}
use py_fdc3_desktop_agent.Server.Turns.{
  Turn, left, is_object, after_send, after_sends, recipient, turn, wcp_turn, dacp_turn,
  after_answer, call_of,
}

-- What holds of all the services together.
pub record IsSound (s : Server) : Type 0 where
  pub consistent : IsConsistent s.agent.channel_manager
  pub guarded : IsGuarded s.agent.channel_manager
  pub tracked : IsTracked s.agent.app_registry
  pub indexed : IsIndexed s.agent.listener_store
  pub filed : IsFiled s.connections.external_registry

remove-IsFiled :
    (m : Connections) (i : String)
    → IsFiled m.external_registry
    → IsFiled (remove_connection m i).external_registry
unfolding remove_connection
remove-IsFiled m i v =
    ground (arith, v, ExternalHistory.unregister_by_instance-IsFiled m.external_registry i v)

module _ (delivers : String → Bool) where
  pub instance-IsSound :
      (s : Server) (websocket i now : String)
      → IsSound s
      → IsSound (cleanup_instance delivers s websocket i now).0
  unfolding cleanup_instance step
  instance-IsSound s websocket i now v = record {
    consistent = step-IsConsistent s.agent.channel_manager (leave i now) v.consistent;
    guarded = step-IsGuarded s.agent.channel_manager (leave i now) v.guarded;
    tracked = unregister-IsTracked s.agent.app_registry i v.tracked;
    indexed = remove_instance-IsIndexed s.agent.listener_store i v.indexed;
    filed = remove-IsFiled s.connections i v.filed;
  }

  uuid-IsSound :
      (s : Server) (websocket : String) (o : Option String) (now : String)
      → IsSound s
      → IsSound (cleanup_uuid delivers s websocket o now).0
  uuid-IsSound s websocket none now v = v
  uuid-IsSound s websocket (some i) now v = ground (arith, v, instance-IsSound s websocket i now v)

  session-IsSound :
      (s : Server) (websocket session_id now : String)
      → IsSound s
      → IsSound
          (forget_session delivers
            (cleanup_uuid delivers s websocket (uuid_of (get s.wcp_sessions session_id)) now)
            session_id).0
  session-IsSound s websocket session_id now v =
      let u = uuid-IsSound s websocket (uuid_of (get s.wcp_sessions session_id)) now v in
      record {
        consistent = u.consistent;
        guarded = u.guarded;
        tracked = u.tracked;
        indexed = u.indexed;
        filed = u.filed;
      }

  pub cleanup-IsSound :
      (s : Server) (websocket : String) (o : Option String) (dacp_active : Bool) (now : String)
      → IsSound s
      → IsSound
          (cleanup delivers s
            (record { websocket = websocket; session_id = o; dacp_active = dacp_active })
            now).0
  unfolding cleanup
  cleanup-IsSound s websocket none dacp_active now v = v
  cleanup-IsSound s websocket (some session_id) dacp_active now v =
      ground (arith, v, session-IsSound s websocket session_id now v)

added-IsFiled :
    (m : Connections) (websocket : String) (o : Option String)
    → IsFiled m.external_registry
    → IsFiled (add_if m websocket o).external_registry
unfolding add_connection
added-IsFiled m websocket none v = v
added-IsFiled m websocket (some i) v = ground (arith, v)

registered-IsFiled :
    (m : Connections) (o : Option String) (sessions : WcpSessions) (websocket : String)
    → IsFiled m.external_registry
    → IsFiled (register_instance_connection m o sessions websocket).external_registry
unfolding register_instance_connection
registered-IsFiled m none sessions websocket v = v
registered-IsFiled m (some session_id) sessions websocket v =
    added-IsFiled m websocket (uuid_of (get sessions session_id)) v

either-IsSound :
    (b : Bool) (t t' : Turn)
    → IsSound t.server
    → IsSound t'.server
    → IsSound (if b then t else t').server
either-IsSound true t t' v v' = v
either-IsSound false t t' v v' = v'

send-IsFiled :
    (delivers : String → Bool) (m : Connections) (o : Option String)
    → IsFiled m.external_registry
    → IsFiled (after_send delivers m o).external_registry
unfolding send_to_instance
send-IsFiled delivers m none v = v
send-IsFiled delivers m (some i) v = ground (arith, v, remove-IsFiled m i v)

sends-IsFiled :
    (delivers : String → Bool) (messages : List Message) (m : Connections)
    → IsFiled m.external_registry
    → IsFiled (after_sends delivers m messages).external_registry
unfolding after_sends
sends-IsFiled delivers [] m v = v
sends-IsFiled delivers (message ∷ messages) m v =
    sends-IsFiled delivers messages (after_send delivers m (recipient message))
      (send-IsFiled delivers m (recipient message) v)

module _ (netloc : AnyUrl → Option String) (get_app_metadata : String → Option AppMetadata)
    (bridge_enabled : Bool) (delivers : String → Bool) where
  answer-IsSound :
      (s : Server) (socket : Socket) (answer : Answer) (o : Transition)
      → IsSound s
      → IsTracked answer.handshakes.app_registry
      → IsSound (after_answer netloc get_app_metadata bridge_enabled s socket answer o).server
  unfolding after_answer
  answer-IsSound s socket answer dacp v t = record {
    consistent = v.consistent;
    guarded = v.guarded;
    tracked = t;
    indexed = v.indexed;
    filed =
        registered-IsFiled s.connections socket.session_id answer.handshakes.wcp_sessions
          socket.websocket v.filed;
  }
  answer-IsSound s socket answer stay v t = record {
    consistent = v.consistent;
    guarded = v.guarded;
    tracked = t;
    indexed = v.indexed;
    filed = v.filed;
  }
  answer-IsSound s socket answer disconnected v t = record {
    consistent = v.consistent;
    guarded = v.guarded;
    tracked = t;
    indexed = v.indexed;
    filed = v.filed;
  }
  answer-IsSound s socket answer failed v t = record {
    consistent = v.consistent;
    guarded = v.guarded;
    tracked = t;
    indexed = v.indexed;
    filed = v.filed;
  }

  dacp-IsSound :
      (s : Server) (socket : Socket) (w : Reads) (frame : Frame)
      → IsFresh s.agent.listener_store w.fresh_uuid
      → IsSound s
      → IsSound (dacp_turn netloc get_app_metadata bridge_enabled delivers s socket w frame).server
  unfolding dacp_turn
  dacp-IsSound s socket w (channel_request q) fresh v =
      let k = call_of netloc get_app_metadata bridge_enabled s socket w in
      let c = handle-IsConsistent s.agent k q v.consistent v.guarded in
      let l = handle-Kept s.agent.app_registry s.agent k q fresh (v.indexed, refl) in
      record {
        consistent = c.0;
        guarded = c.1;
        tracked = subst IsTracked (sym l.1) v.tracked;
        indexed = l.0;
        filed = sends-IsFiled delivers (handle s.agent k q).1 s.connections v.filed;
      }
  dacp-IsSound s socket w (event_request q) fresh v =
      let k = call_of netloc get_app_metadata bridge_enabled s socket w in
      let r = s.agent.app_registry in
      let c =
        handle_event-Holds IsConsistent step-IsConsistent r k s.agent q fresh
          (v.indexed, refl, v.consistent) in
      let g =
        handle_event-Holds IsGuarded step-IsGuarded r k s.agent q fresh
          (v.indexed, refl, v.guarded) in
      record {
        consistent = c.2;
        guarded = g.2;
        tracked = subst IsTracked (sym c.1) v.tracked;
        indexed = c.0;
        filed = sends-IsFiled delivers (handle_event s.agent k q).0.1 s.connections v.filed;
      }
  dacp-IsSound s socket w (wcp_message message) fresh v = v
  dacp-IsSound s socket w unknown_message fresh v = v
  dacp-IsSound s socket w no_object fresh v = v

  wcp-IsSound :
      (s : Server) (socket : Socket) (w : Reads) (frame : Frame)
      → IsSound s
      → IsSound (wcp_turn netloc get_app_metadata bridge_enabled s socket w frame).server
  unfolding wcp_turn
  wcp-IsSound s socket w frame v = answer-IsSound s socket _ _ v (
      handle_message-IsTracked netloc get_app_metadata bridge_enabled
        (record { app_registry = s.agent.app_registry; wcp_sessions = s.wcp_sessions })
        (id_or_empty socket.session_id) v.tracked w.fresh_uuid w.fresh_id (incoming_of frame))

  pub turn-IsSound :
      (s : Server) (socket : Socket) (w : Reads) (frame : Frame)
      → IsFresh s.agent.listener_store w.fresh_uuid
      → IsSound s
      → IsSound (turn netloc get_app_metadata bridge_enabled delivers s socket w frame).server
  unfolding turn
  turn-IsSound s socket w frame fresh v =
      let socket' : Socket = record socket {
        session_id = maybe_set_session_id socket.session_id frame;
      } in
      either-IsSound (not (is_object frame)) (left s socket) _ v (
        either-IsSound socket.dacp_active _ _ (dacp-IsSound s socket' w frame fresh v)
          (wcp-IsSound s socket' w frame v))
