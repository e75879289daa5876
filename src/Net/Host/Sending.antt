-- ===== src/Net/Host/Sending.antt =====
-- What IPv4Layer::send puts into a frame.
use neu_stack.Common.{
  ℕ, ◌+◌, ◌%◌, ◌^◌, ◌≤◌, ◌<◌, ◌≡◌, inl, inr, some, List, ◌∷◌, length, arith, Option-cases,
}
use neu_stack.Seq.{u32}
use neu_stack.Net.Ipv4.{build, parse}
use neu_stack.Net.Ipv4.RoundTrip.{Fits, received, parse-build}
use neu_stack.Net.Host.{Host, outgoing, send}

-- The addresses and counters have their widths.
pub record IsHost (h : Host) : Type 0 where
  pub local_ip : h.local_ip < u32
  pub next_id : h.next_id < 2 ^ 16

abbrev pub Sendable : ℕ → ℕ → List ℕ → Host → Type 0
Sendable dst protocol payload h =
    (dst < u32) × (protocol < 256) × (20 + length payload ≤ h.mtu) × (20 + length payload ≤ 1500)

-- The host behind a send.
abbrev pub after_send : List ℕ → Host → Host
after_send frame h = record h { next_id = (h.next_id + 1) % 2 ^ 16; sent = frame ∷ h.sent }

module _ (dst protocol : ℕ) (payload : List ℕ) (h : Host) where
  outgoing-Fits :
      IsHost h → Sendable dst protocol payload h → Fits (outgoing dst protocol payload h)
  outgoing-Fits ok able = record {
    dscp = omega arith;
    ecn = omega arith;
    identification = ok.next_id;
    ttl = omega arith;
    protocol = omega (arith, able);
    src_addr = ok.local_ip;
    dst_addr = omega (arith, able);
    size = omega (arith, able);
  }

  -- A payload that fits the MTU and the buffer, to a 32-bit address under an 8-bit protocol, is
  -- sent in a frame that a receiver parses to the sender's address, the destination and the
  -- payload.
  pub parse-send :
      IsHost h
      → Sendable dst protocol payload h
      → (frame : List ℕ) × (send dst protocol payload h ≡ (some frame, after_send frame h))
        × (parse frame ≡ some (received (outgoing dst protocol payload h)))
  parse-send ok able = elim (Option-cases (build (outgoing dst protocol payload h) 1500)) [
    | inl absent ↦ absurd (unfold build in ground (arith, absent, able))
    | inr (frame, e) ↦ (
      frame,
      unfold send in ground (arith, able, e),
      parse-build (outgoing dst protocol payload h) 1500 frame (outgoing-Fits ok able) e,
    )
  ]
