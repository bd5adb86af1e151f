-- ===== src/Tests/Proxy.antt =====
-- The path map, the events and the cluster's object of k8s/cmd/fsnotify-proxy/app.
use fs_lib.Prelude.{[], ◌∷◌, ◌≡◌, refl, some, Bytes, codes, drop, Map, insert}
use fs_lib.Strings.{has_prefix}
use fs_lib.Wire.RoundTrip.{as_read}
use fs_lib.Jfs.Connection.{handle_frame}
use fs_lib.Proxy.Paths.{watch, apply_keys, apply_key, last, translate}
use fs_lib.Proxy.Sender.{translate_event}
use fs_lib.Proxy.Sender.Pipeline.{watched_event}

abbrev node : Bytes
node = codes "/var/n"

abbrev pod_path : Bytes
pod_path = codes "/data"

abbrev mapped : Map Bytes
mapped = (codes "/var/n/x", codes "/data/x") ∷ []

watched_map : apply_keys watch node pod_path (codes "/data/x" ∷ []) [] ≡ some mapped
unfolding apply_keys apply_key has_prefix translate insert drop
watched_map = refl

watched_event_example :
    (b : Bytes) × (translate_event mapped
        (record { name = codes "/var/n/x/f"; op = 1; key = codes "/var/n/x" })
      ≡ some b)
    × (handle_frame b
        ≡ as_read (record { name = codes "/data/x/f"; op = 1; key = codes "/var/n/x" }) ∷ [])
unfolding last
watched_event_example =
    watched_event b'/' (codes "var/n") pod_path b'/' (codes "x") (codes "/f") 1 [] mapped
      watched_map refl
