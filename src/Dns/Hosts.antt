-- ===== src/Dns/Hosts.antt =====
-- component/resolver/host.go: the hosts of the configuration, where a name may stand for another name.
use clash_for_android.Prelude.{
  ℕ, zero, suc, Bool, true, false, not, ◌&&◌, Option, none, some, List, Bytes, if◌then◌else◌,
  get_elem?,
}
use clash_for_android.Trie.Node.{Node}
use clash_for_android.Trie.Domain.{search}
use clash_for_android.Dns.Enhancer.{Addr}

pub record HostValue : Type 0 where
  pub is_domain : Bool
  pub ips : List Addr
  pub domain : Bytes

abbrev pub same_kind : Bool → Bool → Bool
same_kind true b = b
same_kind false b = not b

-- The last value, and whether it is of the kind asked for.
abbrev pub judged : Bool → HostValue → HostValue × Bool
judged is_domain value = (value, same_kind is_domain value.is_domain)

abbrev pub or_stop :
    (HostValue → Option (HostValue × Bool))
    → Bool
    → HostValue
    → Option HostValue
    → Option (HostValue × Bool)
or_stop go_on is_domain value none = some (judged is_domain value)
or_stop go_on is_domain value (some next) = go_on next

-- The loop of `Search`, up to a number of names: it goes from a name to the value of the name
-- that it stands for.
unfoldable pub follow : ℕ → Node HostValue → Bool → HostValue → Option (HostValue × Bool)
unfolding search
follow zero hosts is_domain value = none
follow (suc fuel) hosts is_domain value =
    let rest = or_stop (follow fuel hosts is_domain) is_domain value (search value.domain hosts) in
    if is_domain && value.is_domain then some (value, true) else rest

-- The hosts of the system, which are not asked for a name.
abbrev pub from_system : Bool → Option HostValue → Option HostValue × Bool
from_system true value = (none, false)
from_system false none = (none, false)
from_system false (some value) = (some value, true)

abbrev pub some_value : Option (HostValue × Bool) → Option (Option HostValue × Bool)
some_value none = none
some_value (some (value, ok)) = some (some value, ok)

abbrev pub search_from :
    ℕ
    → Node HostValue
    → Bool
    → Option HostValue
    → Option HostValue
    → Option (Option HostValue × Bool)
search_from fuel hosts is_domain system (some value) =
    some_value (follow fuel hosts is_domain value)
search_from fuel hosts is_domain system none = some (from_system is_domain system)

-- `Hosts.Search`. `system` is what the hosts of the system say, nothing where they are not used.
unfoldable pub search_hosts :
    ℕ
    → (Bytes → Option HostValue)
    → Node HostValue
    → Bytes
    → Bool
    → Option (Option HostValue × Bool)
unfolding follow
search_hosts fuel system hosts domain is_domain =
    search_from fuel hosts is_domain (system domain) (search domain hosts)

-- `RandIP` with the index that the random number generator gives for a length; its error leaves the zero address.
unfoldable pub rand_ip : (List Addr → ℕ) → HostValue → Option Addr
rand_ip rand value = if value.is_domain then none else get_elem? value.ips (rand value.ips)
