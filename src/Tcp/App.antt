-- ===== src/Tcp/App.antt =====
-- src/transport/tcp_connection.cpp: what an application calls, `send` and `close`, also from inside
-- a callback.
use neu_stack.Common.{
  ℕ, ◌+◌, min, Bool, true, false, not, ◌&&◌, Option, none, some, List, [], ◌∷◌, ltb, ◌==◌,
  if◌then◌else◌, length, take, drop,
}
use neu_stack.Segment.{fin_flag, psh_flag, ack_flag}
use neu_stack.Stream
use neu_stack.Tcp.{TcpState, listen, syn_sent, established, close_wait, fin_wait_1, last_ack}
use neu_stack.Tcp.World.{Conn, Call, call_send, call_close, Env, Notice}
use neu_stack.Tcp.Send.{send_segment, send_room, send_buffered_data}

abbrev pub can_send : TcpState → Bool
can_send established = true
can_send close_wait = true
can_send _ = false

-- `tcb->send_buffer.write(...)`
unfoldable pub buffer_bytes : List ℕ → Conn → Conn
buffer_bytes bytes c =
    let t = c.tcb in
    record c { tcb = record t { send_buffer = (Stream.write t.send_buffer bytes).1 } }

-- The part of `send` that puts a first segment out and buffers the rest.
unfoldable pub send_now : Env → List ℕ → ℕ → Conn → Conn
send_now env accepted room c =
    let to_send = min (length accepted) (min room c.tcb.options.mss) in
    let sent = send_segment env (ack_flag + psh_flag) (take to_send accepted) c in
    let buffered =
      (if ltb to_send (length accepted) then buffer_bytes (drop to_send accepted) sent else sent) in
    if Stream.empty buffered.tcb.send_buffer then buffered else send_buffered_data env buffered

-- TCPConnectionManager::send; `none` is the result -1.
unfoldable pub send : Env → List ℕ → Conn → Option ℕ × Conn
send env bytes c =
    let t = c.tcb in
    let space = Stream.available t.send_buffer in
    let accepted = take (min (length bytes) space) bytes in
    if not (can_send t.state)
    then (none, c)
    else if length bytes == 0
    then (some 0, c)
    else if space == 0
    then (none, c)
    else if not (Stream.empty t.send_buffer)
    then (some (length accepted), buffer_bytes accepted c)
    else if t.options.nagle_enabled
        && (not (t.snd_nxt == t.snd_una) && ltb (length accepted) t.options.mss)
    then (some (length accepted), buffer_bytes accepted c)
    else if send_room env t == 0
    then (some (length accepted), buffer_bytes accepted c)
    else (some (length accepted), send_now env accepted (send_room env t) c)

-- The two cases of `close` that send a FIN, or leave it to `send_buffered_data`.
unfoldable pub close_with : Env → TcpState → Conn → Conn
close_with env next c =
    let c' = send_buffered_data env c in
    let t = c'.tcb in
    if not (Stream.empty t.send_buffer)
    then record c' { tcb = record t { close_pending = true } }
    else (let sent = send_segment env (fin_flag + ack_flag) [] c' in
        let t' = sent.tcb in record sent { tcb = record t' { state = next } })

-- TCPConnectionManager::close. `delete_tcb` is left to the manager, which looks at `freed`.
unfoldable pub close : Env → Conn → Conn
close env c = elim c.tcb.state [
  | established ↦ close_with env fin_wait_1 c
  | close_wait ↦ close_with env last_ack c
  | listen ↦ record c { freed = true }
  | syn_sent ↦ record c { freed = true }
  | _ ↦ c
]

-- The calls that a callback makes, in order.
unfoldable pub run_calls : Env → List Call → Conn → Conn
run_calls env [] c = c
run_calls env (call_send bytes ∷ rest) c = run_calls env rest (send env bytes c).1
run_calls env (call_close ∷ rest) c = run_calls env rest (close env c)

unfoldable pub note : Notice → Conn → Conn
note n c = let w = c.world in record c { world = record w { notices = n ∷ w.notices } }

-- What a callback does; it is none where the connection has no such callback.
unfoldable pub connect_with : Env → Notice → Conn → Option ℕ → Conn
connect_with env n c none = c
connect_with env n c (some k) = let c' = note n c in run_calls env (env.run_connect k c') c'

unfoldable pub receive_with : Env → List ℕ → Conn → Option ℕ → Conn
receive_with env bytes c none = c
receive_with env bytes c (some k) = run_calls env (env.run_receive k c bytes) c

unfoldable pub close_with_callback : Env → Conn → Option ℕ → Conn
close_with_callback env c none = c
close_with_callback env c (some k) =
    let c' = note (Notice.peer_closed c.tcb.t_tuple) c in run_calls env (env.run_close k c') c'

-- `if (tcb->on_connect) tcb->on_connect(tcb, error)`; the notice carries the error.
abbrev pub fire_connect : Env → Notice → Conn → Conn
fire_connect env n c = connect_with env n c c.tcb.on_connect

abbrev pub fire_receive : Env → List ℕ → Conn → Conn
fire_receive env bytes c = receive_with env bytes c c.tcb.on_receive

abbrev pub fire_close : Env → Conn → Conn
fire_close env c = close_with_callback env c c.tcb.on_close
