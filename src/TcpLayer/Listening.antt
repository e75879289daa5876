-- ===== src/TcpLayer/Listening.antt =====
-- What a second `listen` does to a port.
use neu_stack.Common.{
  ℕ, ◌≡◌, refl, ap, inl, inr, false, none, some, List, [], ◌∷◌, ◌==◌, arith, Bool-cases, ==-refl,
}
use neu_stack.Common.Maps.{find_key, put_key, erase_key}
use neu_stack.Tcp.{Tcb}
use neu_stack.Manager.{listen_on, find_listening_tcb}
use neu_stack.TcpLayer.{TcpLayer, layer_listen}

-- A map in which no key is twice.
abbrev pub IsMap : List (ℕ × ℕ) → Type 0
IsMap [] = Unit {0}
IsMap ((k, v) ∷ rest) = (find_key ◌==◌ k rest ≡ none) × IsMap rest

erase_key-put_key :
    (k v : ℕ) (map : List (ℕ × ℕ))
    → IsMap map
    → find_key ◌==◌ k (erase_key ◌==◌ k (put_key ◌==◌ k v map)) ≡ none
unfolding find_key put_key erase_key
erase_key-put_key k v [] ok = ground (arith, ==-refl k)
erase_key-put_key k v ((j, w) ∷ rest) ok = elim (Bool-cases (j == k)) [
  | inl same ↦
      let e : j ≡ k = ground (arith, same) in
      ground (arith, same, ==-refl k, ap (λ i. find_key ◌==◌ i rest) e, ok.0)
  | inr apart ↦ ground (arith, apart, erase_key-put_key k v rest ok.1)
]

-- If a port is listening, another `listen` for it fails and leaves the listener as it is, but takes
-- its accept callback away: its connections are then accepted by no one.
pub layer_listen-again :
    (port on_accept : ℕ) (layer : TcpLayer) (t : Tcb)
    → find_listening_tcb port layer.manager ≡ some t
    → IsMap layer.accept_callbacks
    → let (ok, layer') = layer_listen port on_accept layer in
      (ok ≡ false)
      × (layer'.manager ≡ layer.manager)
      × (find_key ◌==◌ port layer'.accept_callbacks ≡ none)
unfolding layer_listen
layer_listen-again port on_accept layer t listening ok =
    let refused : listen_on port (some port) layer.manager ≡ (false, layer.manager) =
      unfold listen_on in ground (arith, listening) in
    rw refused (refl, refl, erase_key-put_key port on_accept layer.accept_callbacks ok)
