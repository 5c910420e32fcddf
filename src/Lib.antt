-- ===== src/Lib.antt =====
-- A model of the Go core of Clash for Android: the command server that the application talks to,
-- and the parts of the forwarding kernel that it drives.
--
-- The paths below are relative to core/src/main/golang.
--
-- The application connects to a Unix socket and sends a command number, and a handler runs for it
-- (server/server.go). A handler reads and writes length-prefixed packets (server/utils.go) and
-- works on the global state: the table of proxies, the mode, the listeners and the tun device.
-- The proxies that it selects among are the groups of clash/adapter/outboundgroup. A group takes
-- its members from providers, and chooses one of them by the health that the URL tests of
-- clash/adapter/adapter.go record.
--
-- Prelude: lists, byte strings, maps, results and tests that the parts share.
--
-- Health/Queue: clash/common/queue/queue.go, `Queue` as a list, oldest element first.
-- Health/Kind: `AdapterType` and its `String` (clash/constant/adapters.go).
-- Health/Proxy: clash/adapter/adapter.go. A proxy is a pointer: a `Member` holds its number, and
--   a `Heap` maps numbers to the records that `URLTest` updates (`url_test`). How the HTTP
--   exchange ends is an `Outcome`.
--
-- Group/Base: groupbase.go of clash/adapter/outboundgroup, `GetProxies` as `get_proxies` with its
--   filters, its order and its cache; `onDialFailed`, `onDialSuccess` and `healthCheck`, whose end
--   starts the count of failures again, in Group/Base/Failures. A regular expression is a function
--   into Bool, since the library that compiles it is not part of the program.
-- Group/Selector, Group/Fallback, Group/UrlTest: selector.go, fallback.go and urltest.go there,
--   the search and the choice of each; `fast` with the memory of clash/common/singledo.
-- Group/LoadBalance: the round-robin strategy of loadbalance.go.
--
-- Ranges: clash/common/utils/range.go and ranges.go, which say what status codes and ports are
--   accepted; the parser of their texts is Ranges/Parse.
--
-- FakeIp: clash/component/fakeip, the pool of addresses that stand for host names (pool.go, in
--   FakeIp/Pool) over the store in memory (memory.go, in FakeIp/Base). The cache of common/lru is
--   an argument `Lru`, which keeps its entries in the order of their use (FakeIp/Recency) and gives
--   the least recent one up when it has more than its size (`pool_size`, as config/config.go sets
--   it). FakeIp/Pool/Coherence shows that the two caches hold the same pairs in the same order.
--
-- Routing: `match` and `getRules` of clash/tunnel/tunnel.go, `retry` in Routing/Retry and
--   `preHandleMetadata` in Routing/PreHandle. A rule is a function of the metadata of a
--   connection, which are an argument.
--
-- Trie: clash/component/trie, the tree of domains: its nodes (node.go) in Trie/Node and insertion
--   and search (domain.go) in Trie/Domain. A `DomainTrie` is its root node; a node is a value,
--   since none is reached by two ways. Trie/Store and Trie/Search say what a tree holds and
--   finds, Trie/Pattern what that is for a list of insertions.
--
-- Rules: `Match` and `matchSubRules` of clash/rules/logic/logic.go in Rules/Logic, and the check
--   of the sub-rules of clash/config/config.go (`verifySubRule`) in Rules/SubRules; the split of
--   a payload into its parts (`format`, `findSubRuleRange`) in Rules/Payload; a rule's line
--   (clash/rules/common/base.go) in Rules/Line. A rule of another package is its `Match`, a
--   function of the metadata that may change them.
--
-- Dns: the enhancer of clash/dns/enhancer.go (Dns/Enhancer), the answers with fake addresses of
--   clash/dns/middleware.go (Dns/FakeAnswer) and the hosts of clash/component/resolver/host.go
--   (Dns/Hosts). The pools that the enhancer looks back in are those that the answers take from.
--   An address is a number with its family.
--
-- Sniffer: clash/component/sniffer/tls_sniffer.go. Sniffer/Sniffed has indexing and slicing with
--   a value for Go's panic, and the loop over what is left of a slice; Sniffer/Tls is the
--   sniffer; Sniffer/Tls/Message describes a client's message from the writer's side.
--
-- Socks5: clash/transport/socks5/socks5.go. Socks5/Session is a connection with early returns,
--   and `Says`, what a part of a conversation reads and writes; Socks5/Address has the addresses
--   and the packets of UDP, Socks5/Handshake the server's and the client's side. The buffer of a
--   read is the bytes that it gives, and reading one byte of the length of a password is a full
--   read.
--
-- Config: the first step of `proxyGroupsDagSort` of clash/config/utils.go, in Config/DagSort: the
--   graph of the groups is a `Dict` of nodes, `groupsConfig` the list `sorted`. The invariant of its
--   loop is in Config/DagSort/Order. What decodes an entry and the order in which a map is gone
--   through are arguments.
--
-- Hysteria: clash/transport/hysteria/core. Hysteria/UdpMessage has the layout of a message of UDP
--   (protocol.go, `Pack` and `Unpack`), Hysteria/Fragments the pieces it is cut into and the
--   `defragger` (frag.go); a read outside its slots is `none`.
--
-- Trojan: clash/transport/trojan/trojan.go, the packets of UDP on a stream. It writes and reads the
--   addresses of Socks5; `remain` and `r_addr` of a `PacketConn` are what is left of a packet that
--   the buffer of a call did not take. What one Read gives is the argument `portion`.
--
-- Server/Conn: a Unix connection as the bytes that are left to read, the room that the peer
--   leaves to write, and what was written. Server/Packet: server/utils.go.
-- Server/State: the global variables, and `Env`, which holds what the handlers call of other
--   code: the JSON library, the configuration parser, the delay that a URL test gives and the
--   order in which the tests of one request end.
-- Server/Select, Server/Query: server/proxies.go and server/http.go. Server/Profile:
--   server/profile.go and profile/load.go. Server/Event: server/event.go, where the turns of a
--   `select` are a list of events. Server/Tun: server/tun.go and tun/tun.go. Server/Command: the
--   table of handlers and one connection.
--
-- Statistic: the counters of clash/tunnel/statistic/manager.go. The additions of the goroutines
--   are steps; `Work` is a push or a turn of the ticker, and `Interleaved` gives the orders in which
--   their steps may come. The exchange of a counter and the store of its value in `handle` are one
--   step.
--
-- Tests: the theorems at concrete inputs.
--
-- Some loops have a bound. The loop of the sort of the groups has as many turns as the graph has
-- nodes, of which each turn removes one; the loops that cut a message or a packet into pieces and
-- those of the sniffer have as many turns as there are bytes, of which each turn takes some; the
-- nested calls of `verifySubRule` and `matchSubRules` are at most as many as there are names,
-- since the check refuses a name on the way to itself. These bounds are shown to be enough. The
-- search of the hosts has a fuel for the names that it goes through, and no bound is enough for a
-- name that stands for itself. All other functions are structurally recursive (the round-robin
-- loop counts the turns that are left, as many as there are members, and `retry` the ten attempts
-- of the source). Machine integers are natural numbers, and where the source wraps round (a delay,
-- a provider's version, the length of a packet, the number of a fragment) the remainder is written
-- out; the totals of the bandwidth stream, the counters of the traffic and the counter of failures
-- are taken to stay within their types.
--
-- Not modelled: the goroutines themselves (each handler is one function, and where their order
-- shows it is a parameter), dialling and the proxy protocols but for SOCKS5, the packets of Trojan
-- and the messages of Hysteria, the resolver and the clients of DNS, the single kinds of rules,
-- the configuration but for its check of the sub-rules and the order of its groups, the other
-- sniffers, the log, and what the code behind `Env` does besides its result: the effect of a URL
-- test of the command server on the health records, what the rendering of the proxies changes in
-- the groups through `Now` and `GetProxies`, and that the loading of a profile may end the process.
pub mod Prelude
pub mod Health
pub mod Group
pub mod Ranges
pub mod FakeIp
pub mod Trie
pub mod Socks5
pub mod Sniffer
pub mod Rules
pub mod Dns
pub mod Routing
pub mod Statistic
pub mod Hysteria
pub mod Config
pub mod Trojan
pub mod Server
pub mod Tests
