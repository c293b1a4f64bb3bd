-- ===== src/Edge/Connections/Tests.antt =====
-- Calls of a table with one transport, and the theorems at concrete inputs.
use realm_mesh.Prelude.{
  ℕ, ◌≡◌, ◌≢◌, refl, List, [], ◌∷◌, true, none, some, Text, find, contains, put, text_eq,
  insert_or_assign, All, arith,
}
use realm_mesh.Edge.Connections.{
  MessageTransport, EdgeConnectionRecord, EdgeConnectionTable, closed_of, record_of,
  find_connection, close,
}
use realm_mesh.Edge.Connections.Notices.{
  TableCall, opens, establishes, closes, transport_closes, IsValid, IsRetired, run, run-IsValid,
  close_once,
}

-- A transport that counts what it is asked for.
abbrev counting : MessageTransport ℕ
counting = record {
  protocol = λ t. 0;
  send = λ t session payload. (session, true);
  close = λ t session. (session, true);
}

abbrev tls : Text
tls = 116 ∷ []

abbrev empty_table : EdgeConnectionTable ℕ
empty_table = record {
  transports = λ name. some 0;
  connections = [];
  by_transport = λ name. none;
  next_connection_id = 1;
}

empty_table-IsValid : IsValid empty_table
unfolding find
empty_table-IsValid = record {
  connections_ordered = tt;
  sessions_ordered = λ name sessions e. cc e;
  next_range = omega arith;
  id_range = λ id r e. cc e;
  located = λ id r e. cc e;
  recorded = λ n s id e. cc e;
}

abbrev calls : List TableCall
calls = opens tls 5 (49 ∷ []) ∷ establishes 1 ∷ opens tls 6 (50 ∷ []) ∷ []

abbrev first : EdgeConnectionRecord
first = record {
  primary = record { transport_name = tls; protocol = 0; transport_session_id = 5 };
  source = 49 ∷ [];
  established = true;
}

run-IsValid_example : IsValid (run counting empty_table calls).0
run-IsValid_example = run-IsValid counting empty_table calls empty_table-IsValid

two_open : record_of (run counting empty_table calls).0 1 ≡ some first
unfolding run record_of find put contains text_eq insert_or_assign
two_open = refl

close_once_example :
    ((close counting (run counting empty_table calls).0 1).1 ≡ some (closed_of 1 first))
    × (find_connection (close counting (run counting empty_table calls).0 1).0 tls 5 ≡ none)
    × IsRetired
        (run counting
          (close counting (run counting empty_table calls).0 1).0
          (closes 1 ∷ transport_closes tls 5 ∷ [])).0
        1
    × All
        (λ n. n.connection_id ≢ 1)
        (run counting
          (close counting (run counting empty_table calls).0 1).0
          (closes 1 ∷ transport_closes tls 5 ∷ [])).1
close_once_example =
    close_once counting (run counting empty_table calls).0 1 first
      (closes 1 ∷ transport_closes tls 5 ∷ [])
      (run-IsValid counting empty_table calls empty_table-IsValid) two_open
