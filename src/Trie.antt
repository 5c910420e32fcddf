-- ===== src/Trie.antt =====
-- clash/component/trie: domain.go and node.go, the trie of domain patterns. A domain is a list of
-- ASCII characters, and its parts are kept last part first.
pub mod Node
pub mod Domain
pub mod Search
pub mod Store
pub mod Pattern
