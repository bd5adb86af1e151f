-- ===== src/Producer.antt =====
-- k8s/pkg/producer: the redis client and its subscription, and k8s/pkg/multicast/subscriber.go,
-- which takes the messages of one channel to the fan-out. Redis itself is a parameter: the answers
-- of its calls, and what the channel of a subscription yields.
pub mod Fanout
use fs_lib.Prelude.{
  List, [], ◌∷◌, Bool, true, false, Option, none, some, if◌then◌else◌, Bytes, codes, equal, Result,
  ok, err,
}
use fs_lib.Jfs.Config.{get_env}

-- ChannelName
abbrev pub channel_name : Bytes
channel_name = codes "jfsnotify"

-- redisAddr, redisDB and redisPwd
pub record RedisConfig : Type 0 where
  pub redis_addr : Bytes
  pub redis_pwd : Bytes

-- init; `getenv` is os.Getenv
unfoldable pub init_redis : (Bytes → Bytes) → RedisConfig
unfolding get_env
init_redis getenv = record {
  redis_addr = get_env getenv (codes "redis.kubesphere-system:6379") (codes "REDIS_ADDR" ∷ []);
  redis_pwd = get_env getenv [] (codes "REDIS_PASSWORD" ∷ []);
}

-- redisClient: whether its context is done, and whether Close of the client was called.
pub record RedisClient : Type 0 where
  pub cancelled : Bool
  pub closed : Bool

-- cancel(); r.client.Close()
unfoldable pub release : RedisClient → RedisClient
release r = record { cancelled = true; closed = true }

-- NewRedisClient, over the answer of Ping: the client, and what is returned. A nil `stopCh` ends
-- the program.
unfoldable pub new_redis_client :
    {E : Type 0} → Bool → Option E → Option (RedisClient × Result E RedisClient)
unfolding release
new_redis_client has_stop ping =
    let r : RedisClient = record { cancelled = false; closed = false } in
    if has_stop then some (elim ping [ none ↦ (r, ok r) | some e ↦ (release r, err e) ]) else none

-- Close cancels the context only.
unfoldable pub close_redis : RedisClient → RedisClient
close_redis r = record r { cancelled = true }

-- What the select of Sub finds: the context done, the nil of a stopped subscription, or a message.
pub data SubSignal : Type 0 where
  client_closed : SubSignal
  stopped : SubSignal
  message : Bytes → Bytes → SubSignal

-- Sub: the calls of subCB, in order.
unfoldable pub sub : {S : Type 0} → (Bytes → Bytes → S → S) → List SubSignal → S → S
sub callback [] s = s
sub callback (client_closed ∷ rest) s = s
sub callback (stopped ∷ rest) s = s
sub callback (message channel payload ∷ rest) s = sub callback rest (callback channel payload s)

-- The callback of NewSubscriber
unfoldable pub subscribed : {S : Type 0} → (Bytes → S → S) → Bytes → Bytes → S → S
subscribed callback channel payload s = if equal channel_name channel then callback payload s else s

-- NewSubscriber, up to the subscription that it starts: the messages of the channel
unfoldable pub new_subscriber : {S : Type 0} → (Bytes → S → S) → List SubSignal → S → S
unfolding sub subscribed
new_subscriber callback signals s = sub (subscribed callback) signals s
