-- ===== src/Eapi/Methods.antt =====
-- The methods of the response types of internal/eapi: types.go (NTP) and overlay.go (Ethernet
-- segments).
use arex.Prelude.{
  ℕ, suc, Bool, true, false, ◌&&◌, String, nonempty, str_eq, codes, List, [], ◌∷◌, Option, none,
  some, if◌then◌else◌, ltb,
}
use arex.Prelude.Int.{ℤ, pos}
use arex.Prelude.Assoc.{Map, keys, lookup}
use arex.Eapi.Types.System.{NtpPeer, ShowNtpAssociations}
use arex.Eapi.Types.Overlay.{EthernetSegment}

-- Go's order of strings, on the code points: for UTF-8 it is the order of the bytes.
abbrev pub leb_codes : List ℕ → List ℕ → Bool
leb_codes [] bs = true
leb_codes (a ∷ rest_a) [] = false
leb_codes (a ∷ rest_a) (b ∷ bs) =
    let rest = leb_codes rest_a bs in if ltb a b then true else if ltb b a then false else rest

abbrev pub leb_text : String → String → Bool
leb_text s t = leb_codes (codes s) (codes t)

abbrev pub insert_sorted : String → List String → List String
insert_sorted s [] = s ∷ []
insert_sorted s (t ∷ ts) =
    let later = insert_sorted s ts in if leb_text s t then s ∷ t ∷ ts else t ∷ later

-- slices.Sorted
abbrev pub sorted : List String → List String
sorted [] = []
sorted (s ∷ ss) = insert_sorted s (sorted ss)

abbrev pub successes : List Bool → ℕ
successes [] = 0
successes (ok ∷ history) = let n = successes history in if ok then suc n else n

module _ {F : Type 0} where
  abbrev pub selected : NtpPeer F → Bool
  selected p = str_eq p.condition "sys.peer"

  unfoldable pub reachable_samples : NtpPeer F → ℤ
  reachable_samples p = pos (successes p.reachability_history)

  -- The loop over the addresses. Each is a key of the map, so the lookup finds it.
  abbrev pub first_selected : List String → Map (NtpPeer F) → Option (NtpPeer F)
  first_selected [] peers = none
  first_selected (addr ∷ addrs) peers =
      let later = first_selected addrs peers in
      elim (lookup addr peers) [ none ↦ later | some p ↦ if selected p then some p else later ]

  -- `none` for the zero peer with false.
  unfoldable pub sync_source : ShowNtpAssociations F → Option (NtpPeer F)
  sync_source n = first_selected (sorted (keys n.peers)) n.peers

abbrev pub is_up : EthernetSegment → Bool
is_up s = str_eq s.state "up"

abbrev pub has_designated_forwarder : EthernetSegment → Bool
has_designated_forwarder s = nonempty s.df_peer.ip

abbrev pub designated_forwarder : EthernetSegment → String → Bool
designated_forwarder s local_vtep = has_designated_forwarder s && str_eq s.df_peer.ip local_vtep
