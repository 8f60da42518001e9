-- ===== src/Net/Wire.antt =====
-- The layers of net/ joined: a frame that the card hands to `netstack_rx` and what it comes to for
-- UDP.
pub mod Laws
mod Examples
use chris_os.Base.{ℕ, List, []}
use chris_os.Base.Word.{Memory}
use chris_os.Net.Arp.{Packet}
use chris_os.Net.Ipv4.{Layer, Upper, ignored, ipv4_handle, netstack_rx, to_arp, to_ipv4}
use chris_os.Net.Ipv4.{to_udp, to_icmp, to_tcp, dropped}
use chris_os.Net.Types.{Ip}
use chris_os.Net.Udp.{Call, Sockets, udp_handle}

-- The calls of the callbacks that a packet handed to a layer above IPv4 comes to.
unfoldable pub udp_calls : Sockets → Upper → List Call
udp_calls ss (to_udp src p len) = udp_handle ss src p len
udp_calls ss (to_icmp src p len) = []
udp_calls ss (to_tcp src p len) = []
udp_calls ss dropped = []

unfoldable pub layer_calls : Sockets → Ip → Layer → List Call
layer_calls ss my_ip (to_arp p) = []
layer_calls ss my_ip (to_ipv4 p) = udp_calls ss (ipv4_handle my_ip p.payload p.len)
layer_calls ss my_ip ignored = []

-- The callbacks of UDP that a frame leads to.
unfoldable pub frame_calls : Sockets → Ip → Memory → ℕ → List Call
frame_calls ss my_ip frame len = layer_calls ss my_ip (netstack_rx frame len)
