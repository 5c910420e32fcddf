-- ===== src/Health/Kind.antt =====
-- The adapter types of constant/adapters.go, with their names.
use clash_for_android.Prelude.{String}

pub data AdapterType : Type 0 where
  direct reject reject_drop compatible pass dns : AdapterType
  relay selector fallback url_test load_balance : AdapterType
  shadowsocks shadowsocks_r snell socks5 http vmess vless trojan : AdapterType
  hysteria hysteria2 wire_guard tuic ssh mieru any_tls : AdapterType

unfoldable pub to_string : AdapterType → String
to_string direct = "Direct"
to_string reject = "Reject"
to_string reject_drop = "RejectDrop"
to_string compatible = "Compatible"
to_string pass = "Pass"
to_string dns = "Dns"
to_string shadowsocks = "Shadowsocks"
to_string shadowsocks_r = "ShadowsocksR"
to_string snell = "Snell"
to_string socks5 = "Socks5"
to_string http = "Http"
to_string vmess = "Vmess"
to_string vless = "Vless"
to_string trojan = "Trojan"
to_string hysteria = "Hysteria"
to_string hysteria2 = "Hysteria2"
to_string wire_guard = "WireGuard"
to_string tuic = "Tuic"
to_string ssh = "Ssh"
to_string mieru = "Mieru"
to_string any_tls = "AnyTLS"
to_string relay = "Relay"
to_string selector = "Selector"
to_string fallback = "Fallback"
to_string url_test = "URLTest"
to_string load_balance = "LoadBalance"

pub AdapterType-discrete : Discrete AdapterType
AdapterType-discrete = hlevel
