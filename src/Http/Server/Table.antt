-- ===== src/Http/Server/Table.antt =====
-- include/neustack/app/http_server.hpp and src/app/http_server.cpp: the table of the connections. A
-- key stands for the pointer to an IStreamConnection; what on_close takes off the table is kept
-- aside.
use mathlib.Core.Option.{map}
use neu_stack.Common.{
  ℕ, ◌≡◌, refl, false, Option, none, some, List, [], ◌∷◌, ◌==◌, arith, inl, inr, Option-cases,
  Bool-cases,
}
use neu_stack.Common.Maps.{find_key, put_key, erase_key, find_key-put_key-other}
use neu_stack.Http.Text.{Bytes}
use neu_stack.Http.{Headers}
use neu_stack.Http.Parser.{new_request_parser}
use neu_stack.Http.Server
use neu_stack.Http.Server.{HttpServer, Session}
use neu_stack.Http.Server.Stream
use neu_stack.Http.Server.Stream.{Connection, new_connection, close}

-- `_connections`
pub record Table : Type 0 where
  pub connections : List (ℕ × Session)
  pub closed : List (ℕ × Connection)

-- The callback that listen gives to the transport, for a connection that takes `room`.
abbrev accept : ℕ → List ℕ → Table → Table
accept conn room t = record t {
  connections =
      put_key ◌==◌ conn (record { parser = new_request_parser; conn = new_connection room })
        t.connections;
}

-- HttpServer::on_close
unfoldable on_close : ℕ → Table → Table
on_close conn t = elim (find_key ◌==◌ conn t.connections) [
  | none ↦ t
  | some c ↦ record t {
    connections = erase_key ◌==◌ conn t.connections;
    closed = (conn, close c.conn) ∷ t.closed;
  }
]

abbrev polled : Session → Session
polled c = record c { conn = Stream.poll c.conn }

-- HttpServer::poll, over the connections.
unfoldable poll_all : List (ℕ × Session) → List (ℕ × Session)
poll_all [] = []
poll_all ((conn, c) ∷ rest) = (conn, polled c) ∷ poll_all rest

module _ (read_file : Bytes → Option Bytes) (order : Headers → Headers) where
  -- HttpServer::on_receive, through the table.
  unfoldable receive_on : HttpServer → ℕ → Bytes → Table → Table
  receive_on s conn bytes t = elim (find_key ◌==◌ conn t.connections) [
    | none ↦ t
    | some c ↦ record t {
      connections = put_key ◌==◌ conn (Server.on_receive read_file order s bytes c) t.connections;
    }
  ]

  -- What one connection receives makes no difference to another.
  receive_on-others :
      (s : HttpServer) (conn other : ℕ) (bytes : Bytes) (t : Table)
      → (conn == other) ≡ false
      → find_key ◌==◌ other (receive_on s conn bytes t).connections
        ≡ find_key ◌==◌ other t.connections
  unfolding receive_on
  receive_on-others s conn other bytes t apart =
      elim (Option-cases (find_key ◌==◌ conn t.connections)) [
        | inl absent ↦ rw (absent, receive_on) refl
        | inr (c, present) ↦
            rw (present, receive_on)
              (find_key-put_key-other ◌==◌ conn other (Server.on_receive read_file order s bytes c)
                t.connections apart (λ j h. ground (arith, h, apart)))
      ]

-- A call of poll polls each connection of the table once.
poll_all-find_key :
    (conn : ℕ) (table : List (ℕ × Session))
    → find_key ◌==◌ conn (poll_all table) ≡ map polled (find_key ◌==◌ conn table)
unfolding poll_all find_key
poll_all-find_key conn [] = refl
poll_all-find_key conn ((k, x) ∷ rest) = elim (Bool-cases (k == conn)) [
  | inl here ↦ rw here refl
  | inr there ↦ rw there (poll_all-find_key conn rest)
]
