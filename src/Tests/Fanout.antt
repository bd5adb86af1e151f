-- ===== src/Tests/Fanout.antt =====
-- The server of clients of k8s/pkg/multicast.
use fs_lib.Prelude.{
  List, [], ◌∷◌, ◌≡◌, refl, true, Option, some, Bytes, codes, equal, lookup, keys, member, distinct,
  id-IsRangeOrder,
}
use fs_lib.Event.{Event}
use fs_lib.Multicast.Client.{new_client}
use fs_lib.Multicast.Server.{Server, deliver, written, writes, deliver-lookup}
use fs_lib.Proxy.Watcher.{Watcher, new_watcher}
use fs_lib.Proxy.Sender.{ProxyClient, watcher_writer}

abbrev event : Event
event = record { name = codes "/var/n/x"; op = 1; key = codes "/var/n" }

abbrev decode : Bytes → Option (List Event)
decode msg = some (event ∷ [])

abbrev reader : ProxyClient
reader = record new_client {
  cid = codes "1";
  helper = some (record new_watcher { pod_path_map = (codes "/var/n", codes "/data") ∷ [] });
  published = true;
}

abbrev clients : Server Watcher
clients =
    (codes "1", reader) ∷ (codes "2", record new_client { cid = codes "2"; published = true }) ∷ []

clients-distinct : distinct (keys clients) ≡ true
unfolding distinct member equal
clients-distinct = refl

deliver-lookup_example :
    lookup (codes "1") (deliver (watcher_writer decode) (λ cids. cids) (codes "m") clients)
    ≡ written
        (watcher_writer decode)
        (λ cids. cids)
        (codes "m")
        (writes (watcher_writer decode) (λ cids. cids) (lookup (codes "1") clients))
        (lookup (codes "1") clients)
deliver-lookup_example =
    deliver-lookup (watcher_writer decode) (λ cids. cids) id-IsRangeOrder (codes "m") (codes "1")
      clients clients-distinct
