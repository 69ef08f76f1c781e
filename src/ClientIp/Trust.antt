-- ===== src/ClientIp/Trust.antt =====
-- What a client can bring into its own address.
use vyx.Base.{◌≡◌, Bool, false, List, Option, Text}
use vyx.ClientIp.{stops_at}

module _ {Ip Cidr : Type 0} (split_host_port : Text → Option Text) (parse_ip : Text → Option Ip)
    (holds : Cidr → Ip → Bool) where
  -- The walk passes over the address.
  abbrev pub Passed : List Cidr → Text → Type 0
  Passed cs a = stops_at split_host_port parse_ip holds cs (parse_ip a) ≡ false
