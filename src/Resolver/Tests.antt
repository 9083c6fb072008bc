-- ===== src/Resolver/Tests.antt =====
-- A transfer that waits for its host, and one that is given the addresses.
use karu.Base.{
  ◌%◌, ◌≡◌, refl, true, Option, none, some, List, [], ◌∷◌, ◌++◌, Bytes, codes, length, arith,
}
use karu.Resolver.{
  lowercase, is_decimal, authority_of, split_port, default_port, resolvable_host,
  proxy_environment_present, make_resolver,
}
use karu.Resolver.Entries.{host_for, ask, tell, addition, entry_for, entry}
use karu.Resolver.Steps.{World, called, begun, then_step}
use karu.Resolver.Table.{times, outstanding}
use karu.Resolver.Lookups.{IsSound, Reached-IsSound, Reached-entry_waiting}
use karu.Resolver.Rotation.{join, rotate, addition-rotate}

abbrev no_variable : Bytes → Option Bytes
no_variable name = none

abbrev start : World
start = record { shared = make_resolver no_variable true; in_lookup = none }

abbrev url : Bytes
url = codes "HTTPS://user@Example.org/key"

host : resolvable_host url ≡ some (codes "example.org", codes "443")
unfolding resolvable_host lowercase is_decimal authority_of split_port default_port
host = refl

literal : resolvable_host (codes "http://10.0.0.1:8080/") ≡ none
unfolding resolvable_host lowercase is_decimal authority_of split_port default_port
literal = refl

waits : (entry true 5 url start.shared).1.waiting ≡ true
unfolding entry entry_for host_for ask tell addition resolvable_host lowercase is_decimal
    authority_of split_port default_port proxy_environment_present
waits = refl

abbrev asked : World
asked = record start { shared = (entry true 5 url start.shared).0 }

Reached-IsSound_example : IsSound asked
Reached-IsSound_example =
    Reached-IsSound asked (then_step start asked (begun no_variable true) (called start true 5 url))

Reached-entry_waiting_example :
    (host : Bytes) × (port : Bytes) × (resolvable_host url ≡ some (host, port))
    × (times host (outstanding none (entry true 5 url start.shared).0.queue) ≡ 1)
Reached-entry_waiting_example =
    Reached-entry_waiting start true 5 url (begun no_variable true) waits

abbrev addresses : List Bytes
addresses = codes "10.0.0.1" ∷ codes "10.0.0.2" ∷ codes "10.0.0.3" ∷ []

addition-rotate_example :
    addition (codes "example.org") (codes "443") addresses 4
    ≡ codes "+"
      ++ (codes "example.org"
          ++ (codes ":"
              ++ (codes "443" ++ (codes ":" ++ join (rotate (4 % length addresses) addresses)))))
addition-rotate_example =
    addition-rotate (codes "example.org") (codes "443") addresses 4 (omega arith)

second_first :
    addition (codes "example.org") (codes "443") addresses 4
    ≡ codes "+example.org:443:10.0.0.2,10.0.0.3,10.0.0.1"
unfolding addition
second_first = refl
