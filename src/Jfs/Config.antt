-- ===== src/Jfs/Config.antt =====
-- The environment of a watcher: `init`, NewWatcher and the name of newJFSWatcher in
-- jfsnotify/backend_jfs.go. `env` is os.Getenv.
use fs_lib.Prelude.{List, [], ◌∷◌, ◌++◌, if◌then◌else◌, Bytes, codes, equal, Result, ok, err}
use fs_lib.Strings.{contains}

pub record Config : Type 0 where
  pub pod_name : Bytes
  pub pod_namespace : Bytes
  pub server_addr : Bytes
  pub container_name : Bytes

-- getEnv: the first variable that is set replaces the value.
unfoldable pub get_env : (Bytes → Bytes) → Bytes → List Bytes → Bytes
get_env env v [] = v
get_env env v (n ∷ ns) = let rest = get_env env v ns in if equal (env n) [] then rest else env n

-- the package variables after `init`
unfoldable pub init_config : (Bytes → Bytes) → Config
unfolding get_env
init_config env = record {
  pod_name = get_env env (codes "default") (codes "POD_NAME" ∷ codes "HOSTNAME" ∷ []);
  pod_namespace = get_env env (codes "default") (codes "NAMESPACE" ∷ []);
  server_addr = get_env env (codes "fsnotify-svc.os-system:1506") (codes "NOTIFY_SERVER" ∷ []);
  container_name = get_env env (codes "default") (codes "CONTAINER_NAME" ∷ []);
}

pub data Backend : Type 0 where
  jfs fs : Backend

pub data ConfigError : Type 0 where
  unknown_type bad_name : ConfigError

-- the switch of NewWatcher
unfoldable pub backend_of : (Bytes → Bytes) → Result ConfigError Backend
unfolding get_env
backend_of env =
    let notify_type = get_env env (codes "jfs") (codes "FS_TYPE" ∷ []) in
    if equal notify_type (codes "jfs")
    then ok jfs
    else if equal notify_type (codes "fs")
    then ok fs
    else err unknown_type

-- the test and the name of newJFSWatcher
unfoldable pub jfs_name : Config → Bytes → Result ConfigError Bytes
jfs_name config name =
    if contains b'/' name
    then err bad_name
    else ok (config.pod_name ++ b'/' ∷ (config.container_name ++ b'/' ∷ name))
