-- ===== src/Tests/Table.antt =====
-- The theorems on the manager's tables, applied.
use neu_stack.Common.{[], ◌∷◌, arith}
use neu_stack.Manager.{Manager}
use neu_stack.Manager.Events.{on_segment_received}
use neu_stack.Manager.Bounds.{IsBounded, on_segment_received-IsBounded}
use neu_stack.Tests.{echo_env, peer, flying, segment, manager, three_bytes}

abbrev one_connection : Manager
one_connection = manager ((peer, (flying 5).tcb) ∷ [])

one_connection-IsBounded : IsBounded one_connection
one_connection-IsBounded = record { connections = omega arith; waiting = omega arith }

on_segment_received-IsBounded_example :
    IsBounded (on_segment_received echo_env (segment 17 500 three_bytes) one_connection)
on_segment_received-IsBounded_example =
    on_segment_received-IsBounded echo_env (segment 17 500 three_bytes) one_connection
      one_connection-IsBounded
