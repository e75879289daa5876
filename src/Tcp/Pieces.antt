-- ===== src/Tcp/Pieces.antt =====
-- src/transport/tcp_connection.cpp: pieces of the stream that the peer sends, and the delivery of
-- the queue of those that came out of order.
use neu_stack.Common.{
  ℕ, zero, suc, ◌+◌, ◌-◌, ◌^◌, ◌≤◌, ◌<◌, ◌≡◌, refl, sym, ap, ◌∙◌, inl, inr, false, List, [], ◌∷◌,
  ◌++◌, length, take, drop, length-take, drop-drop, arith, ltb, leb, if◌then◌else◌, Bool-cases,
  take-nil,
}
use mathlib.Core.Path.{subst}
use neu_stack.Seq.{u32, add32, sub32, seq_lt, seq_le, seq_gt}
use neu_stack.Seq.Order.{compare_from_base}
use neu_stack.Tcp.{OutOfOrderSegment, Tcb}
use neu_stack.Tcp.World.{Conn, Env}
use neu_stack.Tcp.Data.{deliver_data, deliver_front, deliver_queue}
use neu_stack.Tcp.Frame.{receive_with-SameReceiver}

drop-take : (k m : ℕ) (xs : List ℕ) → drop k (take m xs) ≡ take (m - k) (drop k xs)
drop-take zero m xs = let e : m - zero ≡ m = omega arith in rw e refl
drop-take (suc k) zero xs = let e : zero - suc k ≡ zero = omega arith in rw e refl
drop-take (suc k) (suc m) [] = sym (take-nil (suc m - suc k))
drop-take (suc k) (suc m) (x ∷ xs) =
    let e : suc m - suc k ≡ m - k = omega arith in rw e (drop-take k m xs)

take-add : (n m : ℕ) (xs : List ℕ) → take n xs ++ take m (drop n xs) ≡ take (n + m) xs
take-add zero m xs = let e : zero + m ≡ m = omega arith in rw e refl
take-add (suc n) m [] = rw (take-nil m, take-nil (suc n + m)) refl
take-add (suc n) m (x ∷ xs) =
    let e : suc n + m ≡ suc (n + m) = omega arith in rw e (ap (◌∷◌ x) (take-add n m xs))

-- A prefix is made longer by what a piece of the list has beyond it.
take-piece :
    (n off len : ℕ) (xs : List ℕ)
    → off ≤ n
    → n ≤ off + len
    → take n xs ++ drop (n - off) (take len (drop off xs)) ≡ take (off + len) xs
take-piece n off len xs low high =
    ap (λ ys. take n xs ++ ys)
      (drop-take (n - off) len (drop off xs)
        ∙ ap (take (len - (n - off)))
            (drop-drop (n - off) off xs ∙ ap (λ i. drop i xs) (omega arith)))
    ∙ take-add n (len - (n - off)) xs
    ∙ ap (λ i. take i xs) (omega arith)

-- What a delivery to the application leaves.
pub record Delivery (bytes : List ℕ) (t t' : Tcb) : Type 0 where
  pub rcv_nxt : t'.rcv_nxt ≡ t.rcv_nxt
  pub ooo_queue : t'.ooo_queue ≡ t.ooo_queue
  pub ooo_overrun : t'.ooo_overrun ≡ t.ooo_overrun
  pub delivered : t'.delivered ≡ t.delivered ++ bytes

pub deliver_data-Delivery :
    (env : Env) (bytes : List ℕ) (c : Conn) → Delivery bytes c.tcb (deliver_data env bytes c).tcb
unfolding deliver_data
deliver_data-Delivery env bytes c =
    let t = c.tcb in
    let c' = record c { tcb = record t { delivered = t.delivered ++ bytes } } in
    let same = receive_with-SameReceiver env bytes c' c'.tcb.on_receive in
    record {
      rcv_nxt = same.rcv_nxt;
      ooo_queue = same.ooo_queue;
      ooo_overrun = same.ooo_overrun;
      delivered = same.delivered;
    }

-- A stream of bytes, the first of which has the sequence number `base`.
module _ (base : ℕ) (stream : List ℕ) where
  -- The bytes are those of the stream from an offset on.
  pub record IsPiece (start off : ℕ) (bytes : List ℕ) : Type 0 where
    pub numbered : start ≡ add32 base off
    pub inside : off + length bytes ≤ length stream
    pub same : bytes ≡ take (length bytes) (drop off stream)

  pub record IsPlaced (e : OutOfOrderSegment) : Type 0 where
    pub off : ℕ
    pub piece : IsPiece e.seq_start off e.bytes
    pub last : e.seq_end ≡ add32 base (off + length e.bytes)

  pub data AllPlaced : List OutOfOrderSegment → Type 0 where
    no_more : AllPlaced []
    one_more :
        {e : OutOfOrderSegment} {rest : List OutOfOrderSegment}
        → IsPlaced e
        → AllPlaced rest
        → AllPlaced (e ∷ rest)

  -- What was delivered is a prefix of the stream, and `nxt` is the number of the byte after it.
  pub record IsPrefix (nxt : ℕ) (got : List ℕ) : Type 0 where
    pub next : nxt ≡ add32 base (length got)
    pub inside : length got ≤ length stream
    pub same : got ≡ take (length got) stream

  -- In addition, what waits out of order are pieces of the stream.
  pub record OnStream (t : Tcb) : Type 0 where
    pub prefix : IsPrefix t.rcv_nxt t.delivered
    pub waiting : AllPlaced t.ooo_queue

  -- The state is on the stream, and at least `n` of its bytes were delivered.
  abbrev pub Reaches : ℕ → Tcb → Type 0
  Reaches n t = OnStream t × (n ≤ length t.delivered)

  -- A piece that reaches the end of the prefix, or past it, makes it longer by what it has beyond.
  pub extend :
      (start off next nxt : ℕ) (bytes got after : List ℕ)
      → IsPrefix nxt got
      → IsPiece start off bytes
      → off ≤ length got
      → length got ≤ off + length bytes
      → next ≡ add32 base (off + length bytes)
      → after ≡ got ++ drop (length got - off) bytes
      → IsPrefix next after × (length after ≡ off + length bytes)
  extend start off next nxt bytes got after p piece low high numbered d = (
    record {
      next = numbered ∙ ap (add32 base) (sym size);
      inside = omega (arith, size, piece.inside);
      same = whole ∙ ap (λ i. take i stream) (sym size);
    },
    size,
  )
    where
      whole : after ≡ take (off + length bytes) stream
      whole =
          d
          ∙ ap (λ xs. xs ++ drop (length got - off) bytes) p.same
          ∙ ap (λ xs. take (length got) stream ++ drop (length got - off) xs) piece.same
          ∙ take-piece (length got) off (length bytes) stream low high

      size : length after ≡ off + length bytes
      size = ap length whole ∙ length-take (off + length bytes) stream ∙ omega (arith, piece.inside)

  module _ (base_in : base < u32) (short : length stream < 2 ^ 31) where
    -- How the code's tests on sequence numbers compare an offset with the number of bytes
    -- delivered.
    pub offsets :
        (x nxt off n : ℕ)
        → x ≡ add32 base off
        → nxt ≡ add32 base n
        → off ≤ length stream
        → n ≤ length stream
        → (seq_lt x nxt ≡ ltb off n)
          × (seq_le x nxt ≡ leb off n)
          × (seq_gt x nxt ≡ ltb n off)
          × (off ≤ n → sub32 nxt x ≡ n - off)
    offsets x nxt off n hx hn off_in n_in =
        let order =
          compare_from_base base off n base_in (omega (arith, short)) (omega (arith, short)) in
        (rw (hx, hn) (order.0), rw (hx, hn) (order.1), rw (hx, hn) (order.2), λ h. omega arith)

    deliver_front-Reaches :
        (env : Env) (front : OutOfOrderSegment) (rest : List OutOfOrderSegment) (c : Conn)
        → IsPrefix c.tcb.rcv_nxt c.tcb.delivered
        → IsPlaced front
        → seq_gt front.seq_start c.tcb.rcv_nxt ≡ false
        → IsPrefix
            (deliver_front env front rest c).tcb.rcv_nxt
            (deliver_front env front rest c).tcb.delivered
          × ((deliver_front env front rest c).tcb.ooo_queue ≡ rest)
          × (length c.tcb.delivered ≤ length (deliver_front env front rest c).tcb.delivered)
    unfolding deliver_front
    deliver_front-Reaches env front rest c p e reached =
        elim (Bool-cases (seq_le front.seq_end c.tcb.rcv_nxt)) [
          | inl old ↦ rw old (p, refl, omega arith)
          | inr new_one ↦
              let beyond : length c.tcb.delivered ≤ e.off + length front.bytes =
                ground (arith, order_last.1, new_one) in
              let grown =
                extend front.seq_start e.off front.seq_end c.tcb.rcv_nxt front.bytes c.tcb.delivered
                  (deliver_data env (drop skip front.bytes) c).tcb.delivered p e.piece low beyond
                  e.last (d.delivered ∙ ap (λ i. c.tcb.delivered ++ drop i front.bytes) skip-lem) in
              rw new_one (grown.0, refl, omega (arith, grown.1, beyond))
        ]
      where
        n : ℕ
        n = length c.tcb.delivered

        skip : ℕ
        skip =
            if seq_lt front.seq_start c.tcb.rcv_nxt then sub32 c.tcb.rcv_nxt front.seq_start else 0

        d : Delivery (drop skip front.bytes) c.tcb (deliver_data env (drop skip front.bytes) c).tcb
        d = deliver_data-Delivery env (drop skip front.bytes) c

        order_first :
            (seq_lt front.seq_start c.tcb.rcv_nxt ≡ ltb e.off n)
            × (seq_le front.seq_start c.tcb.rcv_nxt ≡ leb e.off n)
            × (seq_gt front.seq_start c.tcb.rcv_nxt ≡ ltb n e.off)
            × (e.off ≤ n → sub32 c.tcb.rcv_nxt front.seq_start ≡ n - e.off)
        order_first =
            offsets front.seq_start c.tcb.rcv_nxt e.off n e.piece.numbered p.next
              (omega (arith, e.piece.inside)) p.inside

        order_last :
            (seq_lt front.seq_end c.tcb.rcv_nxt ≡ ltb (e.off + length front.bytes) n)
            × (seq_le front.seq_end c.tcb.rcv_nxt ≡ leb (e.off + length front.bytes) n)
            × (seq_gt front.seq_end c.tcb.rcv_nxt ≡ ltb n (e.off + length front.bytes))
            × (e.off + length front.bytes ≤ n
                → sub32 c.tcb.rcv_nxt front.seq_end ≡ n - (e.off + length front.bytes))
        order_last =
            offsets front.seq_end c.tcb.rcv_nxt (e.off + length front.bytes) n e.last p.next
              e.piece.inside p.inside

        low : e.off ≤ n
        low = ground (arith, order_first.2, reached)

        skip-lem : skip ≡ n - e.off
        skip-lem = ground (arith, order_first.0, order_first.3 low)

    pub deliver_queue-OnStream :
        (env : Env) (queue : List OutOfOrderSegment) (c : Conn)
        → IsPrefix c.tcb.rcv_nxt c.tcb.delivered
        → AllPlaced queue
        → c.tcb.ooo_queue ≡ queue
        → Reaches (length c.tcb.delivered) (deliver_queue env queue c).tcb
    unfolding deliver_queue
    deliver_queue-OnStream env [] c p no_more same =
        (record { prefix = p; waiting = subst AllPlaced (sym same) no_more }, omega arith)
    deliver_queue-OnStream env (front ∷ rest) c p (one_more e others) same =
        elim (Bool-cases (seq_gt front.seq_start c.tcb.rcv_nxt)) [
          | inl gap ↦ rw gap (
            record { prefix = p; waiting = subst AllPlaced (sym same) (one_more e others) },
            omega arith,
          )
          | inr reached ↦
              let first = deliver_front-Reaches env front rest c p e reached in
              let later =
                deliver_queue-OnStream env rest (deliver_front env front rest c) first.0 others
                  first.1 in
              rw reached (later.0, omega (arith, first.2, later.1))
        ]
