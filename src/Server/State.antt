-- ===== src/Server/State.antt =====
-- The state that the handlers of core/src/main/golang/server share, and what they call that is
-- not theirs: the JSON library, the configuration parser, the kernel's URL tests.
use clash_for_android.Prelude.{ℕ, String, Bool, Option, List, Bytes, Dict, Result}
use clash_for_android.Health.Proxy.{Member}
use clash_for_android.Group.Selector.{Selector}
use clash_for_android.Server.Conn.{Conn}

-- An entry of tunnel.Proxies(): an *adapter.Proxy round a selector, one round another adapter, or
-- a C.Proxy of another type.
pub data Outbound : Type 0 where
  select : Selector → Outbound
  plain : Member → Outbound
  foreign : Outbound

-- tunnel/mode.go
pub data Mode : Type 0 where
  global rule direct : Mode

-- listener.GetPorts(), the fields that are shown.
pub record Ports : Type 0 where
  pub port : ℕ
  pub socks_port : ℕ
  pub redir_port : ℕ

-- `handler` of tun/tun.go
pub record Tun : Type 0 where
  pub fd : ℕ
  pub mtu : ℕ

-- The global variables. `http_listener` is the address of the random HTTP port.
pub record App : Type 0 where
  pub proxies : Dict Outbound
  pub mode : Mode
  pub ports : Ports
  pub http_listener : Option String
  pub tun : Option Tun

-- One handler at work: the state, its connection, and whether the process has panicked.
pub record Machine : Type 0 where
  pub app : App
  pub conn : Conn
  pub panicked : Bool

-- The reply to a query of the general state, as the client sees it.
pub record General : Type 0 where
  pub http : ℕ
  pub socks : ℕ
  pub redirect : ℕ
  pub random_http : ℕ
  pub mode : ℕ

-- A request for URL tests: the URL, the timeout and the names.
pub record TestRequest : Type 0 where
  pub url : String
  pub timeout : ℕ
  pub names : List String

-- Requests that do not parse are `none`, or, where the handler ignores the error, whatever the
-- library leaves in the variable. `load` is executor.ParseWithPath, with executor.ApplyConfig as
-- the change that a good configuration makes. `test` is the delay that Proxy.URLTest gives, and
-- `finish` the order in which the tests of a request end. They are results only: what a URL test
-- writes to the health records, what MarshalJSON changes in the groups for `proxy_json`, and an end
-- of the process in ApplyConfig are left out.
pub record Env : Type 0 where
  pub compatible : Member
  pub set_request : Bytes → String × String
  pub set_response : Bytes → Bytes
  pub reload_request : Bytes → Option (String × List (String × String))
  pub reload_response : Bytes → Bytes
  pub general_response : General → Bytes
  pub proxy_json : String → Outbound → Option Bytes
  pub proxies_response : String → Dict Bytes → Bytes
  pub test_request : Bytes → Option TestRequest
  pub test_response : String → ℕ → Bytes
  pub load : String → Result Bytes (App → App)
  pub port_of : String → ℕ
  pub test : String → String → ℕ → Option ℕ
  pub finish : List String → List String
