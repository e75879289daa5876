-- ===== src/Tcp/Rounds.antt =====
-- src/transport/tcp_connection.cpp: what the rounds of send_buffered_data leave as it is.
use neu_stack.Common.{◌≤◌, ◌<◌, min, max, ◌≡◌, refl, ap, ◌∙◌, none, some, take, arith}
use mathlib.Core.Path.{subst₂}
use neu_stack.Seq.{u32}
use neu_stack.Stream.{peek_contiguous}
use neu_stack.Stream.Contents.{IsValid}
use neu_stack.Tcp.{Tcb}
use neu_stack.Tcp.World.{Conn, Env, effective_window}
use neu_stack.Tcp.Send.{send_room, send_chunk}
use neu_stack.Tcp.Frame.{send_segment-SameReceiver, send_segment-SameSender}
use neu_stack.Tcp.Queue.{in_flight}
use neu_stack.Tcp.Chunk.{chunk, consumed, send_chunk-nxt, send_chunk-unacked, unacked}

-- What no round of the loop changes.
pub record SameLimits (env : Env) (t t' : Tcb) : Type 0 where
  pub una : t'.snd_una ≡ t.snd_una
  pub window : effective_window env t' ≡ effective_window env t
  pub options : t'.options ≡ t.options
  pub close_pending : t'.close_pending ≡ t.close_pending
  pub state : t'.state ≡ t.state

same_window :
    (env : Env) (t t' : Tcb)
    → t'.congestion_control ≡ t.congestion_control
    → t'.snd_wnd ≡ t.snd_wnd
    → effective_window env t' ≡ effective_window env t
unfolding effective_window
same_window env t t' same_control same_wnd =
    subst₂
      (λ o n.
        effective_window env t' ≡ min (elim o [ none ↦ 65535 | some calls ↦ env.cwnd calls ]) n)
      same_control same_wnd refl

pub send_chunk-SameLimits : (env : Env) (c : Conn) → SameLimits env c.tcb (send_chunk env c).tcb
unfolding send_chunk
send_chunk-SameLimits env c =
    let same =
      send_segment-SameSender env 24 (take (chunk env c.tcb) (peek_contiguous c.tcb.send_buffer))
        c in
    let kept =
      send_segment-SameReceiver env 24 (take (chunk env c.tcb) (peek_contiguous c.tcb.send_buffer))
        c in
    record {
      una = same.una;
      window = same_window env c.tcb (send_chunk env c).tcb same.congestion_control same.snd_wnd;
      options = kept.options;
      close_pending = same.close_pending;
      state = same.state;
    }

pub SameLimits-trans :
    {env : Env} {t u v : Tcb} → SameLimits env t u → SameLimits env u v → SameLimits env t v
SameLimits-trans h k = record {
  una = k.una ∙ h.una;
  window = k.window ∙ h.window;
  options = k.options ∙ h.options;
  close_pending = k.close_pending ∙ h.close_pending;
  state = k.state ∙ h.state;
}

-- What the loop starts from: a well-formed buffer and numbers of 32 bits.
pub record IsReady (t : Tcb) : Type 0 where
  pub valid : IsValid t.send_buffer
  pub una_in : t.snd_una < u32
  pub nxt_in : t.snd_nxt < u32
  pub wnd_in : t.snd_wnd < u32
  pub mss_fits : t.options.mss ≤ 1460

-- What the loop has done to the connection.
pub record Drained (env : Env) (t t' : Tcb) : Type 0 where
  pub same : SameLimits env t t'
  pub valid : IsValid t'.send_buffer
  pub bytes : unacked t' ≡ unacked t
  pub nxt_in : t'.snd_nxt < u32
  pub within : in_flight t' ≤ max (in_flight t) (effective_window env t)

window-snd_wnd : (env : Env) (t : Tcb) → effective_window env t ≤ t.snd_wnd
unfolding effective_window
window-snd_wnd env t = ground arith

pub send_chunk-Drained :
    (env : Env) (c : Conn) → IsReady c.tcb → Drained env c.tcb (send_chunk env c).tcb
send_chunk-Drained env c r =
    let next = send_chunk-nxt env c r.valid r.nxt_in r.mss_fits in
    let same = send_chunk-SameLimits env c in
    record {
      same = same;
      valid = (consumed env c r.valid r.nxt_in r.mss_fits).1;
      bytes = send_chunk-unacked env c r.valid r.nxt_in r.mss_fits;
      nxt_in = omega (arith, next);
      within = unfold send_room in ground (arith, next, same.una, r, window-snd_wnd env c.tcb);
    }

pub Drained-refl : (env : Env) (c : Conn) → IsReady c.tcb → Drained env c.tcb c.tcb
Drained-refl env c r = record {
  same = record { una = refl; window = refl; options = refl; close_pending = refl; state = refl };
  valid = r.valid;
  bytes = refl;
  nxt_in = r.nxt_in;
  within = omega arith;
}

chunk_wnd : (env : Env) (c : Conn) → (send_chunk env c).tcb.snd_wnd ≡ c.tcb.snd_wnd
unfolding send_chunk
chunk_wnd env c =
    (send_segment-SameSender env 24 (take (chunk env c.tcb) (peek_contiguous c.tcb.send_buffer))
      c).snd_wnd

pub send_chunk-IsReady : (env : Env) (c : Conn) → IsReady c.tcb → IsReady (send_chunk env c).tcb
send_chunk-IsReady env c r =
    let step = send_chunk-Drained env c r in
    let wnd = chunk_wnd env c in
    record {
      valid = step.valid;
      una_in = omega (arith, step.same.una, r.una_in);
      nxt_in = step.nxt_in;
      wnd_in = omega (arith, wnd, r.wnd_in);
      mss_fits = omega (arith, ap (λ o. o.mss) step.same.options, r.mss_fits);
    }
