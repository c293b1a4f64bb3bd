-- ===== src/Gateway/Pipeline/Phases.antt =====
-- The account of the sessions through the lifecycle of the connections and their messages.
use realm_mesh.Prelude.{
  ℕ, ◌≡◌, refl, List, [], ◌∷◌, ◌||◌, leb, Option, none, some, Text, length, find, contains, put,
  arith, either,
}
use realm_mesh.Gateway.Pipeline.{
  PipelineSession, Ports, GatewayLoginPipeline, EdgeEvent, EdgeEventKind, connection_opened,
  message_received, connection_established, connection_closed, peer_address_changed,
  GatewayLoginFrame,
}
use realm_mesh.Gateway.Pipeline.Sessions.{new_session, release_session}
use realm_mesh.Gateway.Pipeline.Attach.{
  store, has_value, close_found, move_found, lifecycle, preapply_lifecycle, receive, receive_found,
  message, process_messages,
}
use realm_mesh.Gateway.Pipeline.Accounts.{Laws}
use realm_mesh.Gateway.Pipeline.Rules.{release_session-Freed}
use realm_mesh.Gateway.Pipeline.AttachRules.{receive-Owns}
use realm_mesh.Gateway.Pipeline.Invariant.{
  IsAccounted, store-IsAccounted, erase-IsAccounted, new-IsAccounted,
}

module _ {W : Type 0} (ports : Ports W) (held : W → ℕ) (laws : Laws ports held) (base : ℕ) where
  abbrev Keeps : GatewayLoginPipeline W → Type 0
  Keeps p = IsAccounted held base p

  close_found-Keeps :
      (p : GatewayLoginPipeline W) (id : ℕ) (found : Option PipelineSession)
      → Keeps p
      → find id p.sessions ≡ found
      → Keeps (close_found ports p id found)
  close_found-Keeps p id none h e = h
  close_found-Keeps p id (some s) h e =
      erase-IsAccounted held base p id s (release_session ports p.shared s) h e (λ n m own.
        release_session-Freed ports held laws p.config.fetch_capacity n m (p.shared, s) own h.small)

  move_found-Keeps :
      (p : GatewayLoginPipeline W) (id : ℕ) (source : Text) (found : Option PipelineSession)
      → Keeps p
      → find id p.sessions ≡ found
      → Keeps (move_found ports p id source found)
  move_found-Keeps p id source none h e = h
  move_found-Keeps p id source (some s) h e =
      store-IsAccounted held base p id s (p.shared, record s { source = source }) h e
        (λ n m own. own)

  lifecycle-Keeps :
      (p : GatewayLoginPipeline W) (kind : EdgeEventKind) (id : ℕ) (source : Text)
      → Keeps p
      → Keeps (lifecycle ports p kind id source)
  unfolding lifecycle
  lifecycle-Keeps p connection_opened id source h =
      either Keeps (contains id p.sessions || leb p.config.conn_capacity (length p.sessions)) p
        (record p { sessions = put id (new_session source) p.sessions }) (λ e. h)
        (λ e. new-IsAccounted held base p id source h (ground arith) (ground arith))
  lifecycle-Keeps p peer_address_changed id source h =
      move_found-Keeps p id source (find id p.sessions) h refl
  lifecycle-Keeps p connection_closed id source h =
      close_found-Keeps p id (find id p.sessions) h refl
  lifecycle-Keeps p message_received id source h = h
  lifecycle-Keeps p connection_established id source h = h

  pub preapply_lifecycle-Keeps :
      (p : GatewayLoginPipeline W) (events : List EdgeEvent)
      → IsAccounted held base p
      → IsAccounted held base (preapply_lifecycle ports p events)
  unfolding preapply_lifecycle
  preapply_lifecycle-Keeps p [] h = h
  preapply_lifecycle-Keeps p (e ∷ events) h =
      preapply_lifecycle-Keeps (lifecycle ports p e.kind e.connection_id e.source) events
        (lifecycle-Keeps p e.kind e.connection_id e.source h)

  receive_found-Keeps :
      (frame : GatewayLoginFrame) (event : EdgeEvent) (p : GatewayLoginPipeline W)
      (found : Option PipelineSession)
      → Keeps p
      → find event.connection_id p.sessions ≡ found
      → Keeps (receive_found ports frame event p found)
  receive_found-Keeps frame event p none h e = h
  receive_found-Keeps frame event p (some s) h e =
      let x = receive ports p.config p.gateway_instance frame event p.shared s in
      either Keeps (s.closing || has_value s.intent) p (store p event.connection_id x) (λ busy. h)
        (λ waits. store-IsAccounted held base p event.connection_id s x h e (λ n m own.
          receive-Owns ports held laws p.config p.gateway_instance frame event n m p.shared s own
            (ground arith, ground arith) h.small))

  message-Keeps :
      (frame : GatewayLoginFrame) (event : EdgeEvent) (kind : EdgeEventKind)
      (p : GatewayLoginPipeline W)
      → Keeps p
      → Keeps (message ports frame event kind p)
  unfolding message
  message-Keeps frame event message_received p h =
      receive_found-Keeps frame event p (find event.connection_id p.sessions) h refl
  message-Keeps frame event connection_opened p h = h
  message-Keeps frame event connection_established p h = h
  message-Keeps frame event connection_closed p h = h
  message-Keeps frame event peer_address_changed p h = h

  pub process_messages-Keeps :
      (frame : GatewayLoginFrame) (events : List EdgeEvent) (p : GatewayLoginPipeline W)
      → IsAccounted held base p
      → IsAccounted held base (process_messages ports frame events p)
  unfolding process_messages
  process_messages-Keeps frame [] p h = h
  process_messages-Keeps frame (e ∷ events) p h =
      process_messages-Keeps frame events (message ports frame e e.kind p)
        (message-Keeps frame e e.kind p h)
