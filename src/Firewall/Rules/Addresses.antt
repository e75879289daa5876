-- ===== src/Firewall/Rules/Addresses.antt =====
-- What the lists of addresses decide.
use neu_stack.Common.{ℕ, ◌≡◌, refl, inl, inr, true, false, List, [], ◌∷◌, arith, Bool-cases}
use neu_stack.Limiter.Table.{Floats}
use neu_stack.Firewall.{pass, drop_packet, PacketEvent}
use neu_stack.Firewall.Rules.{
  RuleEngine, contains, insert_ip, erase_ip, add_whitelist_ip, remove_whitelist_ip,
  add_blacklist_ip, evaluate,
}

contains-insert_ip : (ip : ℕ) (set : List ℕ) → contains ip (insert_ip ip set) ≡ true
unfolding insert_ip contains
contains-insert_ip ip set = elim (Bool-cases (contains ip set)) [
  | inl e ↦ rw (e, e) refl
  | inr e ↦ ground (arith, e)
]

contains-erase_ip : (ip : ℕ) (set : List ℕ) → contains ip (erase_ip ip set) ≡ false
unfolding erase_ip contains
contains-erase_ip ip [] = refl
contains-erase_ip ip (j ∷ rest) = ground (arith, contains-erase_ip ip rest)

-- Whatever the rules and the rates are: a packet from an address passes once the address is put in
-- the whitelist, even if it is in the blacklist, and is dropped once the address is put in the
-- blacklist and taken from the whitelist.
pub evaluate-lists :
    (floats : Floats) (evt : PacketEvent) (now_us : ℕ) (e : RuleEngine)
    → let white = add_whitelist_ip evt.src_ip (add_blacklist_ip evt.src_ip e) in
      let black = remove_whitelist_ip evt.src_ip (add_blacklist_ip evt.src_ip e) in
      ((evaluate floats evt now_us white).0.action ≡ pass)
      × ((evaluate floats evt now_us black).0.action ≡ drop_packet)
unfolding evaluate add_whitelist_ip remove_whitelist_ip add_blacklist_ip
evaluate-lists floats evt now_us e =
    let ip = evt.src_ip in
    (
      ground (arith, contains-insert_ip ip e.whitelist_ips),
      ground (arith, contains-insert_ip ip e.blacklist_ips, contains-erase_ip ip e.whitelist_ips),
    )
