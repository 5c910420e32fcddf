-- ===== src/Tests/Samples.antt =====
-- Inputs of the tests: members, providers, groups, a state of the program and a connection.
use clash_for_android.Prelude.{
  ℕ, String, Bool, true, false, none, some, [], ◌∷◌, ok, if◌then◌else◌, ◌==◌, codes, str_eq,
}
use mathlib.Core.List.{reverse}
use clash_for_android.Health.Kind.{shadowsocks, vmess, compatible}
use clash_for_android.Health.Proxy.{Member, Heap, Proxy}
use clash_for_android.Group.Base.{Group, Provider}
use clash_for_android.Group.Selector.{Selector}
use clash_for_android.Server.Conn.{Conn}
use clash_for_android.Server.State.{select, plain, rule, App, Machine, Env, TestRequest}

abbrev pub compat : Member
compat = record { id = 0; name = "COMPATIBLE"; kind = compatible; udp = true }

abbrev pub tokyo : Member
tokyo = record { id = 1; name = "tokyo"; kind = shadowsocks; udp = true }

abbrev pub osaka : Member
osaka = record { id = 2; name = "osaka"; kind = vmess; udp = false }

abbrev pub paris : Member
paris = record { id = 3; name = "paris"; kind = vmess; udp = true }

abbrev pub subscription : Provider
subscription = record {
  version = 1;
  compatible = false;
  proxies = tokyo ∷ osaka ∷ paris ∷ [];
  touched = false;
}

abbrev pub not_paris : String → Bool
not_paris name = if str_eq name "paris" then false else true

-- Everything but paris, by the filter.
abbrev pub filtered : Group
filtered = record {
  name = "auto";
  filter_regs = not_paris ∷ [];
  exclude_filter_regs = [];
  exclude_types = [];
  providers = subscription ∷ [];
  failed_times = 0;
  failed_time = 0;
  failed_testing = false;
  test_timeout = 5000;
  max_failed_times = 5;
  provider_versions = [];
  provider_proxies = [];
}

-- All members, with nothing cached.
abbrev pub whole : Group
whole = record filtered { filter_regs = [] }

abbrev pub url : String
url = "https://www.gstatic.com/generate_204"

-- Tokyo does not answer, and paris is faster than osaka.
abbrev pub state : Bool → ℕ → Proxy
state alive delay = record {
  alive = alive;
  history = [];
  extra = (url, record { alive = alive; history = record { time = 1; delay = delay } ∷ [] }) ∷ [];
}

abbrev pub heap : Heap
heap i = if i == 2 then state true 120 else if i == 3 then state true 80 else state false 0

abbrev pub chooser : Selector
chooser = record {
  group = whole;
  disable_udp = false;
  selected = "COMPATIBLE";
  test_url = url;
  hidden = false;
  icon = "";
}

abbrev pub app : App
app = record {
  proxies = ("GLOBAL", select chooser) ∷ ("media", select chooser) ∷ ("DIRECT", plain compat) ∷ [];
  mode = rule;
  ports = record { port = 7890; socks_port = 7891; redir_port = 0 };
  http_listener = none;
  tun = none;
}

abbrev pub request : TestRequest
request = record { url = url; timeout = 5000; names = "media" ∷ "nowhere" ∷ "GLOBAL" ∷ [] }

-- Stand-ins for the JSON library, the configuration parser and the network.
abbrev pub env : Env
env = record {
  compatible = compat;
  set_request = λ _. ("GLOBAL", "osaka");
  set_response = λ e. e;
  reload_request = λ _. some ("config.yaml", []);
  reload_response = λ e. e;
  general_response = λ g. g.http ∷ g.mode ∷ [];
  proxy_json = λ k _. some (codes k);
  proxies_response = λ k _. codes k;
  test_request = λ _. some request;
  test_response = λ name delay. delay ∷ codes name;
  load = λ _. ok (λ a. a);
  port_of = λ _. 0;
  test = λ name _ _. some 42;
  finish = reverse;
}

abbrev pub conn : Conn
conn = record { input = []; room = 1000; sent = []; closed = false }

abbrev pub machine : Machine
machine = record { app = app; conn = conn; panicked = false }
