-- ===== src/Net.antt =====
-- io/decap.py, io/encap.py and model/net.py: the link, IP and UDP layers around a payload. The text of
-- an address is the business of the `ipaddress` module, which is a parameter.
pub mod Decap
pub mod Encap
mod Tests
use rtpkit.Common.{ℕ, ◌≡◌, Option, none, some, All, length}
use rtpkit.Wire.{Bytes, IsByte}

-- What the code asks of `ipaddress`: whether a text is an IPv4 or an IPv6 address with which packed
-- bytes (`IPv4Address(text).packed`, or a ValueError), and the text of such bytes.
pub record IpAddresses : Type 1 where
  pub Text : Type 0
  pub ipv4_packed : Text → Option Bytes
  pub ipv6_packed : Text → Option Bytes
  pub ipv4_text : Bytes → Text
  pub ipv6_text : Bytes → Text
  pub ipv4_fits :
      (text : Text) (packed : Bytes)
      → ipv4_packed text ≡ some packed
      → (length packed ≡ 4) × All IsByte packed
  pub ipv6_fits :
      (text : Text) (packed : Bytes)
      → ipv6_packed text ≡ some packed
      → (length packed ≡ 16) × All IsByte packed

pub record DecapsulatedUdp (Text : Type 0) : Type 0 where
  pub src_ip : Text
  pub dst_ip : Text
  pub src_port : ℕ
  pub dst_port : ℕ
  pub payload : Bytes

-- The constants of both modules.
abbrev pub dlt_en10mb : ℕ
dlt_en10mb = 1

abbrev pub dlt_raw : ℕ
dlt_raw = 101

abbrev pub dlt_linux_sll : ℕ
dlt_linux_sll = 113

abbrev pub ethertype_ipv4 : ℕ
ethertype_ipv4 = 0x0800

abbrev pub ethertype_ipv6 : ℕ
ethertype_ipv6 = 0x86dd

abbrev pub proto_udp : ℕ
proto_udp = 17
