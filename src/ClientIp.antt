-- ===== src/ClientIp.antt =====
-- The resolvers of a client's address, core/application/gateway/clientip.go. The package `net` is
-- outside: the host of an address with a port, parsing, and whether a network holds an address. The
-- white space that `strings.TrimSpace` takes off is that of ASCII.
pub mod Trust
use vyx.Base.{
  ℕ, zero, suc, Bool, true, false, ◌||◌, ◌&&◌, List, [], ◌∷◌, ◌++◌, Option, none, some,
  if◌then◌else◌, ◌==◌, leb, Text, str_eq,
}
use vyx.Route.{split, is_empty}

pub record Request : Type 0 where
  pub remote_addr : Text
  pub forwarded_for : Text
  pub real_ip : Text

abbrev pub is_space : ℕ → Bool
is_space c = c == 32 || (leb 9 c && leb c 13)

unfoldable pub trim_left_space : Text → Text
trim_left_space [] = []
trim_left_space (c ∷ s) = let rest = trim_left_space s in if is_space c then rest else c ∷ s

unfoldable pub trim_right_space : Text → Text
trim_right_space [] = []
trim_right_space (c ∷ s) =
    let rest = trim_right_space s in if is_empty rest && is_space c then [] else c ∷ rest

unfoldable pub trim_all : List Text → List Text
trim_all [] = []
trim_all (a ∷ as') = trim_right_space (trim_left_space a) ∷ trim_all as'

abbrev pub first_or_empty : List Text → Text
first_or_empty [] = []
first_or_empty (a ∷ as') = a

abbrev pub or_text : Option Text → Text → Text
or_text none t = t
or_text (some a) t = a

module _ {Ip Cidr : Type 0} (split_host_port : Text → Option Text) (parse_ip : Text → Option Ip)
    (holds : Cidr → Ip → Bool) where
  unfoldable pub remote_addr_ip : Request → Text
  remote_addr_ip r = or_text (split_host_port r.remote_addr) r.remote_addr

  unfoldable pub is_trusted : List Cidr → Ip → Bool
  is_trusted [] ip = false
  is_trusted (c ∷ cs) ip = holds c ip || is_trusted cs ip

  -- Whether the walk stops at an address: it parses, and no trusted network holds it.
  abbrev pub stops_at : List Cidr → Option Ip → Bool
  stops_at cs none = false
  stops_at cs (some ip) = if is_trusted cs ip then false else true

  -- The last address of the list at which the walk from the right stops.
  unfoldable pub last_untrusted : List Cidr → List Text → Option Text
  last_untrusted cs [] = none
  last_untrusted cs (a ∷ as') = elim (last_untrusted cs as') [
    | some b ↦ some b
    | none ↦ if stops_at cs (parse_ip a) then some a else none
  ]

  unfoldable pub forwarded_for_ip : List Cidr → Request → Text
  forwarded_for_ip trusted r =
      let addrs = trim_all (split b',' r.forwarded_for) in
      if str_eq r.forwarded_for []
      then remote_addr_ip r
      else if is_empty trusted
      then first_or_empty addrs
      else or_text (last_untrusted trusted addrs) (first_or_empty addrs)

  abbrev pub peer_trusted : List Cidr → Option Ip → Bool
  peer_trusted cs none = false
  peer_trusted cs (some ip) = is_trusted cs ip

  abbrev pub parse_peer : Option Text → Option Ip
  parse_peer none = none
  parse_peer (some host) = if str_eq host [] then none else parse_ip host

  unfoldable pub real_ip_ip : List Cidr → Request → Text
  real_ip_ip trusted r =
      if str_eq r.real_ip []
      then remote_addr_ip r
      else if is_empty trusted
      then r.real_ip
      else if peer_trusted trusted (parse_peer (split_host_port r.remote_addr))
      then r.real_ip
      else remote_addr_ip r
