-- ===== src/Edge/Connections.antt =====
-- framework/edge/src/edge_connection_table.cpp: the table of the connections of an edge service. The
-- transports are given by the operations that the table calls. The order of the unordered maps is not
-- read; those that are keyed by numbers are ordered here.
pub mod Lookup
pub mod Invariant
pub mod Notices
mod Tests
use realm_mesh.Prelude.{
  ℕ, List, [], ◌∷◌, Bool, true, false, ◌||◌, ◌==◌, if◌then◌else◌, Option, none, some, Text, TextMap,
  insert_or_assign, text_eq, length, add64, Map, find, contains, put, erase, Result, ok, err,
  invalid_argument, overflow_error,
}

-- network::IMessageTransport
pub record MessageTransport (T : Type 0) : Type 0 where
  pub protocol : T → ℕ
  pub send : T → ℕ → List ℕ → T × Bool
  pub close : T → ℕ → T × Bool

pub record EdgeConnectionTransport : Type 0 where
  pub transport_name : Text
  pub protocol : ℕ
  pub transport_session_id : ℕ

pub data SendResult : Type 0 where
  sent unknown_session send_failed : SendResult

pub record EdgeConnectionRecord : Type 0 where
  pub primary : EdgeConnectionTransport
  pub source : Text
  pub established : Bool

pub record ClosedEdgeConnection : Type 0 where
  pub connection_id : ℕ
  pub source : Text
  pub established : Bool

pub record EdgeConnectionTable (T : Type 0) : Type 0 where
  pub transports : TextMap T
  pub connections : Map EdgeConnectionRecord
  pub by_transport : TextMap (Map ℕ)
  pub next_connection_id : ℕ

-- `emplace` leaves an entry that is there.
abbrev pub emplace : {V : Type 0} → ℕ → V → Map V → Map V
emplace k v m = if contains k m then m else put k v m

-- `map[key]` makes an empty entry where there is none.
abbrev pub or_empty : Option (Map ℕ) → Map ℕ
or_empty none = []
or_empty (some m) = m

abbrev pub is_empty : Map ℕ → Bool
is_empty [] = true
is_empty (e ∷ m) = false

pub without : {V : Type 0} → Text → TextMap V → TextMap V
without key m k = if text_eq k key then none else m k

abbrev pub find_in : Option (Map ℕ) → ℕ → Option ℕ
find_in none session = none
find_in (some sessions) session = find session sessions

abbrev pub lookup : TextMap (Map ℕ) → Text → ℕ → Option ℕ
lookup m name session = find_in (m name) session

-- The entry of a transport goes with its last session.
abbrev pub keep_sessions : TextMap (Map ℕ) → Text → Map ℕ → TextMap (Map ℕ)
keep_sessions m name sessions =
    if is_empty sessions then without name m else insert_or_assign name sessions m

abbrev pub forget_in : Option (Map ℕ) → TextMap (Map ℕ) → Text → ℕ → TextMap (Map ℕ)
forget_in none m name session = m
forget_in (some sessions) m name session = keep_sessions m name (erase session sessions)

abbrev pub forget : TextMap (Map ℕ) → Text → ℕ → TextMap (Map ℕ)
forget m name session = forget_in (m name) m name session

abbrev pub connect : TextMap (Map ℕ) → Text → ℕ → ℕ → TextMap (Map ℕ)
connect m name session id = insert_or_assign name (emplace session id (or_empty (m name))) m

abbrev pub closed_of : ℕ → EdgeConnectionRecord → ClosedEdgeConnection
closed_of id r = record { connection_id = id; source = r.source; established = r.established }

module _ {T : Type 0} where
  pub register_transport : EdgeConnectionTable T → Text → T → Result (EdgeConnectionTable T)
  register_transport t name transport = elim (t.transports name) [
    | some taken ↦ err invalid_argument
    | none ↦ ok (record t { transports = insert_or_assign name transport t.transports })
  ]

  pub find_connection : EdgeConnectionTable T → Text → ℕ → Option ℕ
  find_connection t name session = lookup t.by_transport name session

  pub record_of : EdgeConnectionTable T → ℕ → Option EdgeConnectionRecord
  record_of t id = find id t.connections

  pub update_source : EdgeConnectionTable T → ℕ → Text → EdgeConnectionTable T × Bool
  update_source t id source = elim (find id t.connections) [
    | none ↦ (t, false)
    | some r ↦
        if length source == 0
        then (t, false)
        else (record t { connections = put id (record r { source = source }) t.connections }, true)
  ]

  pub establish : EdgeConnectionTable T → ℕ → EdgeConnectionTable T × Bool
  establish t id = elim (find id t.connections) [
    | none ↦ (t, false)
    | some r ↦ if r.established then (t, false) else (
      record t { connections = put id (record r { established = true }) t.connections },
      true,
    )
  ]

  pub erase_connection : EdgeConnectionTable T → ℕ → EdgeConnectionRecord → EdgeConnectionTable T
  erase_connection t id r = record t {
    connections = erase id t.connections;
    by_transport = forget t.by_transport r.primary.transport_name r.primary.transport_session_id;
  }

  pub on_transport_closed :
      EdgeConnectionTable T → Text → ℕ → EdgeConnectionTable T × Option ClosedEdgeConnection
  unfolding erase_connection
  on_transport_closed t name session = elim (lookup t.by_transport name session) [
    | none ↦ (t, none)
    | some id ↦ elim (find id t.connections) [
      | none ↦ (t, none)
      | some r ↦ (erase_connection t id r, some (closed_of id r))
    ]
  ]

module _ {T : Type 0} (ops : MessageTransport T) where
  -- The entries of a new connection.
  pub opened : EdgeConnectionTable T → T → Text → ℕ → Text → EdgeConnectionTable T
  opened t transport name session source = record t {
    next_connection_id = add64 t.next_connection_id 1;
    connections =
        emplace t.next_connection_id
          (record {
            primary = record {
              transport_name = name;
              protocol = ops.protocol transport;
              transport_session_id = session;
            };
            source = source;
            established = false;
          })
          t.connections;
    by_transport = connect t.by_transport name session t.next_connection_id;
  }

  pub open_connection : EdgeConnectionTable T → Text → ℕ → Text → Result (EdgeConnectionTable T × ℕ)
  unfolding opened
  open_connection t name session source = elim (t.transports name) [
    | none ↦ err invalid_argument
    | some transport ↦
        if session == 0 || length source == 0
        then err invalid_argument
        else elim (lookup t.by_transport name session) [
          | some id ↦ ok (t, id)
          | none ↦
              if t.next_connection_id == 0
              then err overflow_error
              else ok (opened t transport name session source, t.next_connection_id)
        ]
  ]

  pub send : EdgeConnectionTable T → ℕ → List ℕ → EdgeConnectionTable T × SendResult
  send t id payload = elim (find id t.connections) [
    | none ↦ (t, unknown_session)
    | some r ↦ elim (t.transports r.primary.transport_name) [
      | none ↦ (t, unknown_session)
      | some transport ↦
          let (after, done) = ops.send transport r.primary.transport_session_id payload in
          (
            record t { transports = insert_or_assign r.primary.transport_name after t.transports },
            if done then sent else send_failed,
          )
    ]
  ]

  -- The transport closes the session of the connection.
  pub close_transport : EdgeConnectionTable T → EdgeConnectionRecord → EdgeConnectionTable T
  close_transport t r = elim (t.transports r.primary.transport_name) [
    | none ↦ t
    | some transport ↦ record t {
      transports =
          insert_or_assign r.primary.transport_name
            (ops.close transport r.primary.transport_session_id).0 t.transports;
    }
  ]

  pub close : EdgeConnectionTable T → ℕ → EdgeConnectionTable T × Option ClosedEdgeConnection
  unfolding erase_connection close_transport
  close t id = elim (find id t.connections) [
    | none ↦ (t, none)
    | some r ↦ (erase_connection (close_transport t r) id r, some (closed_of id r))
  ]
