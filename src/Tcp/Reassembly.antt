-- ===== src/Tcp/Reassembly.antt =====
-- src/transport/tcp_connection.cpp: received data against the stream that the peer sends.
use neu_stack.Common.{
  ℕ, ◌+◌, ◌-◌, ◌^◌, ◌≤◌, ◌<◌, ◌≡◌, refl, sym, ◌∙◌, inl, inr, false, List, [], ◌∷◌, length, drop,
  arith, ltb, leb, ◌==◌, Bool-cases,
}
use mathlib.Core.Path.{subst, subst₂}
use neu_stack.Seq.{u32, add32, sub32, seq_lt, seq_le, seq_gt}
use neu_stack.Segment.{TcpSegment, data_length}
use neu_stack.Tcp.{OutOfOrderSegment, Tcb}
use neu_stack.Tcp.World.{Conn, Env}
use neu_stack.Tcp.Send.{send_segment}
use neu_stack.Tcp.Data.{
  deliver_data, insert_ooo, add_to_ooo_queue, deliver_queue, deliver_ooo_data, acknowledge,
  handle_next, handle_data, ooo_capacity,
}
use neu_stack.Tcp.Frame.{SameReceiver, send_segment-SameReceiver}
use neu_stack.Tcp.Overrun.{handle_data-overrun}
use neu_stack.Tcp.Pieces.{
  deliver_data-Delivery, IsPiece, IsPlaced, AllPlaced, no_more, one_more, IsPrefix, OnStream,
  Reaches, extend, offsets, deliver_queue-OnStream,
}

module _ (base : ℕ) (stream : List ℕ) where
  module _ (base_in : base < u32) (short : length stream < 2 ^ 31) where
    acknowledge-SameReceiver : (env : Env) (c : Conn) → SameReceiver c.tcb (acknowledge env c).tcb
    unfolding acknowledge
    acknowledge-SameReceiver env c = ground (arith, send_segment-SameReceiver env 16 [] c)

    OnStream-SameReceiver :
        (n : ℕ) (t u : Tcb) → SameReceiver t u → Reaches base stream n t → Reaches base stream n u
    OnStream-SameReceiver n t u same r = (
      record {
        prefix = subst₂ (IsPrefix base stream) (sym same.rcv_nxt) (sym same.delivered) r.0.prefix;
        waiting = subst (AllPlaced base stream) (sym same.ooo_queue) r.0.waiting;
      },
      subst (λ xs. n ≤ length xs) (sym same.delivered) r.1,
    )

    -- A piece from the end of the prefix on.
    handle_next-OnStream :
        (env : Env) (start off seg_end : ℕ) (bytes : List ℕ) (c : Conn)
        → OnStream base stream c.tcb
        → IsPiece base stream start off bytes
        → off ≤ length c.tcb.delivered
        → length c.tcb.delivered ≤ off + length bytes
        → seg_end ≡ add32 base (off + length bytes)
        → Reaches base stream
            (off + length bytes)
            (handle_next env seg_end (drop (length c.tcb.delivered - off) bytes) c).tcb
    unfolding handle_next deliver_ooo_data
    handle_next-OnStream env start off seg_end bytes c v piece low high numbered =
        let news = drop (length c.tcb.delivered - off) bytes in
        let shown = deliver_data env news c in
        let t = shown.tcb in
        let c' = record shown { tcb = record t { rcv_nxt = seg_end } } in
        let d = deliver_data-Delivery env news c in
        let grown =
          extend base stream start off seg_end c.tcb.rcv_nxt bytes c.tcb.delivered t.delivered
            v.prefix piece low high numbered d.delivered in
        let later =
          deliver_queue-OnStream base stream base_in short env t.ooo_queue c' grown.0
            (subst (AllPlaced base stream) (sym d.ooo_queue) v.waiting) refl in
        OnStream-SameReceiver (off + length bytes) (deliver_queue env t.ooo_queue c').tcb
          (acknowledge env (deliver_queue env t.ooo_queue c')).tcb
          (acknowledge-SameReceiver env (deliver_queue env t.ooo_queue c'))
          (later.0, omega (arith, later.1, grown.1))

    insert_ooo-AllPlaced :
        (e : OutOfOrderSegment) (queue : List OutOfOrderSegment)
        → IsPlaced base stream e
        → AllPlaced base stream queue
        → AllPlaced base stream (insert_ooo e queue)
    unfolding insert_ooo
    insert_ooo-AllPlaced e [] p no_more = one_more p no_more
    insert_ooo-AllPlaced e (x ∷ rest) p (one_more q others) =
        elim (Bool-cases (seq_lt x.seq_start e.seq_start)) [
          | inl before ↦ rw before (one_more q (insert_ooo-AllPlaced e rest p others))
          | inr behind ↦ rw behind (one_more p (one_more q others))
        ]

    add_to_ooo_queue-OnStream :
        (start off : ℕ) (bytes : List ℕ) (t : Tcb)
        → OnStream base stream t
        → IsPiece base stream start off bytes
        → Reaches base stream (length t.delivered) (add_to_ooo_queue start bytes t)
    unfolding add_to_ooo_queue
    add_to_ooo_queue-OnStream start off bytes t v piece =
        elim (Bool-cases (ltb t.options.recv_buffer_size (t.ooo_size + length bytes))) [
          | inl full_one ↦ rw full_one (v, omega arith)
          | inr fits ↦ rw fits (
            record {
              prefix = v.prefix;
              waiting =
                  insert_ooo-AllPlaced
                    (record {
                      seq_start = start;
                      seq_end = add32 start (length bytes);
                      bytes = bytes;
                    })
                    t.ooo_queue
                    (record { off = off; piece = piece; last = omega (arith, piece.numbered) })
                    v.waiting;
            },
            omega arith,
          )
        ]

    -- A segment with a piece of the stream keeps the connection on the stream and takes nothing
    -- back from the application; if it starts at or before the next byte, the application has all
    -- of it.
    handle_data-OnStream :
        (env : Env) (seg : TcpSegment) (off : ℕ) (c : Conn)
        → OnStream base stream c.tcb
        → IsPiece base stream seg.seq_num off seg.payload
        → Reaches base stream (length c.tcb.delivered) (handle_data env seg c).tcb
          × (off ≤ length c.tcb.delivered
              → off + data_length seg ≤ length (handle_data env seg c).tcb.delivered)
    unfolding handle_data
    handle_data-OnStream env seg off c v piece = elim (Bool-cases (len == 0)) [
      | inl nothing ↦ rw nothing ((v, omega arith), λ h. ground (arith, nothing))
      | inr some_one ↦ elim (Bool-cases (seq_le seg_end c.tcb.rcv_nxt)) [
        | inl old ↦ rw (some_one, old) ((v, omega arith), λ h. ground (arith, last.1, old))
        | inr fresh ↦ elim (Bool-cases (seq_lt seg.seq_num c.tcb.rcv_nxt)) [
          | inl before ↦
              let low : off ≤ n = ground (arith, first.0, before) in
              let skip : sub32 c.tcb.rcv_nxt seg.seq_num ≡ n - off = first.3 low in
              let beyond : n < off + len = ground (arith, last.1, fresh) in
              let enough : leb len (sub32 c.tcb.rcv_nxt seg.seq_num) ≡ false =
                ground (arith, skip, beyond) in
              let all =
                handle_next-OnStream env seg.seq_num off seg_end seg.payload c v piece low
                  (omega (arith, beyond)) ended in
              rw (some_one, fresh, before, enough, skip)
                ((all.0, omega (arith, all.1, beyond)), λ h. all.1)
          | inr behind ↦ elim (Bool-cases (seg.seq_num == c.tcb.rcv_nxt)) [
            | inl next ↦
                let here : off ≡ n = ground (arith, next, piece, v.prefix) in
                let all =
                  handle_next-OnStream env seg.seq_num off seg_end seg.payload c v piece
                    (omega (arith, here)) (omega (arith, here)) ended in
                let skip : n - off ≡ 0 = omega (arith, here) in
                let all' : Reaches base stream (off + len)
                    (handle_next env seg_end seg.payload c).tcb =
                  subst
                    (λ k.
                      Reaches base stream (off + len)
                        (handle_next env seg_end (drop k seg.payload) c).tcb)
                    skip all in
                rw (some_one, fresh, behind, next)
                  ((all'.0, omega (arith, all'.1, here)), λ h. all'.1)
            | inr gap ↦
                let far : n < off = ground (arith, gap, behind, first.0, piece, v.prefix) in
                let t = c.tcb in
                let c' = record c { tcb = add_to_ooo_queue seg.seq_num seg.payload t } in
                rw (some_one, fresh, behind, gap)
                  (
                    OnStream-SameReceiver n c'.tcb (send_segment env 16 [] c').tcb
                        (send_segment-SameReceiver env 16 [] c')
                        (add_to_ooo_queue-OnStream seg.seq_num off seg.payload t v piece),
                    λ h. absurd (omega (arith, h, far)),
                  )
          ]
        ]
      ]
    ]
      where
        n : ℕ
        n = length c.tcb.delivered

        len : ℕ
        len = data_length seg

        seg_end : ℕ
        seg_end = add32 seg.seq_num len

        ended : seg_end ≡ add32 base (off + len)
        ended = omega (arith, piece.numbered)

        first :
            (seq_lt seg.seq_num c.tcb.rcv_nxt ≡ ltb off n)
            × (seq_le seg.seq_num c.tcb.rcv_nxt ≡ leb off n)
            × (seq_gt seg.seq_num c.tcb.rcv_nxt ≡ ltb n off)
            × (off ≤ n → sub32 c.tcb.rcv_nxt seg.seq_num ≡ n - off)
        first =
            offsets base stream base_in short seg.seq_num c.tcb.rcv_nxt off n piece.numbered
              v.prefix.next (omega (arith, piece.inside)) v.prefix.inside

        last :
            (seq_lt seg_end c.tcb.rcv_nxt ≡ ltb (off + len) n)
            × (seq_le seg_end c.tcb.rcv_nxt ≡ leb (off + len) n)
            × (seq_gt seg_end c.tcb.rcv_nxt ≡ ltb n (off + len))
            × (off + len ≤ n → sub32 c.tcb.rcv_nxt seg_end ≡ n - (off + len))
        last =
            offsets base stream base_in short seg_end c.tcb.rcv_nxt (off + len) n ended
              v.prefix.next piece.inside v.prefix.inside

-- For a stream of fewer than 2^31 bytes: a segment with a piece of it that starts at or before the
-- next byte expected is delivered to its last byte, and what the application has is still a prefix.
pub handle_data-delivers :
    (base : ℕ) (stream : List ℕ) (env : Env) (seg : TcpSegment) (off : ℕ) (c : Conn)
    → base < u32
    → length stream < 2 ^ 31
    → OnStream base stream c.tcb
    → IsPiece base stream seg.seq_num off seg.payload
    → off ≤ length c.tcb.delivered
    → Reaches base stream (off + data_length seg) (handle_data env seg c).tcb
handle_data-delivers base stream env seg off c base_in short v piece here =
    let all = handle_data-OnStream base stream base_in short env seg off c v piece in
    (all.0.0, all.1 here)

-- What a connection makes of segments that come in one after the other.
pub handle_all : Env → List TcpSegment → Conn → Conn
handle_all env [] c = c
handle_all env (seg ∷ later) c = handle_all env later (handle_data env seg c)

-- Segments that all carry pieces of the stream, in any order, overlapping or not, each small enough
-- for the array of an entry of the out-of-order queue.
pub data Arrivals (base : ℕ) (stream : List ℕ) : List TcpSegment → Type 0 where
  no_segment : Arrivals base stream []
  one_segment :
      {seg : TcpSegment} {later : List TcpSegment} (off : ℕ)
      → IsPiece base stream seg.seq_num off seg.payload
      → length seg.payload ≤ ooo_capacity
      → Arrivals base stream later
      → Arrivals base stream (seg ∷ later)

-- For a stream of fewer than 2^31 bytes: whatever segments with pieces of at most 1460 bytes of it
-- come in, in whatever order, what the application is given is a prefix of the stream, `rcv_nxt` is
-- the number of the byte after it, nothing that the application had is taken back, and nothing is
-- written behind the array of an entry of the out-of-order queue.
pub handle_all-OnStream :
    (base : ℕ) (stream : List ℕ) (env : Env) (segs : List TcpSegment) (c : Conn)
    → base < u32
    → length stream < 2 ^ 31
    → OnStream base stream c.tcb
    → Arrivals base stream segs
    → c.tcb.ooo_overrun ≡ false
    → Reaches base stream (length c.tcb.delivered) (handle_all env segs c).tcb
      × ((handle_all env segs c).tcb.ooo_overrun ≡ false)
unfolding handle_all
handle_all-OnStream base stream env [] c base_in short v a sound = ((v, omega arith), sound)
handle_all-OnStream base stream env (seg ∷ later) c base_in short v (one_segment off piece fits a)
      sound =
    let first = (handle_data-OnStream base stream base_in short env seg off c v piece).0 in
    let rest =
      handle_all-OnStream base stream env later (handle_data env seg c) base_in short first.0 a
        (handle_data-overrun env seg c fits ∙ sound) in
    ((rest.0.0, omega (arith, first.1, rest.0.1)), rest.1)
