-- ===== src/Filters/Limits/RedisBucket/Pool.antt =====
-- The connections of filter/limits/container_redis.go: the parts of the server's URI, and how a
-- connection is dialled. The parser of URIs and the client library are parameters.
use go_relax.Base.{ℕ, Bool, Option, none, some, [], ◌∷◌, ◌++◌, if◌then◌else◌}
use go_relax.Text.{Text, codes, is_empty}
use go_relax.Filters.Limits.MemBucket.{split_port}
use go_relax.Filters.Limits.RedisBucket.{RedisBucket}

-- What is used of a parsed URI; `user` is there if the URI has one, with the password if it has one.
pub record Url : Type 0 where
  pub scheme : Text
  pub host : Text
  pub user : Option (Option Text)
  pub path : Text

-- The variables that the functions of the pool close over, and the pool's limits; the idle time is in
-- seconds.
pub record PoolSettings : Type 0 where
  pub network : Text
  pub address : Text
  pub auth : Text
  pub index : Text
  pub max_idle : ℕ
  pub max_active : ℕ
  pub idle_timeout : ℕ

-- An address without a port gets the default port of Redis.
unfoldable pub with_port : Text → Text
unfolding split_port codes
with_port host = if is_empty (split_port host).1 then host ++ codes ":6379" else host

abbrev password : Option (Option Text) → Text
password none = []
password (some none) = []
password (some (some p)) = p

abbrev without_slash : Text → Text
without_slash [] = []
without_slash (c ∷ s) = s

-- newRedisPool; `none` is the panic of a URI that does not parse.
unfoldable pub new_redis_pool : (Text → Option Url) → Text → Option PoolSettings
unfolding with_port
new_redis_pool parse uri = elim (parse uri) [
  | none ↦ none
  | some u ↦ some (record {
    network = u.scheme;
    address = with_port u.host;
    auth = password u.user;
    index = without_slash u.path;
    max_idle = 10;
    max_active = 100;
    idle_timeout = 300;
  })
]

-- NewRedisBucket
unfoldable pub new_redis_bucket :
    (Text → Option Url) → Text → ℕ → ℕ → Option (RedisBucket × PoolSettings)
unfolding new_redis_pool
new_redis_bucket parse uri capacity rate = elim (new_redis_pool parse uri) [
  | none ↦ none
  | some pool ↦ some (record { size = capacity; rate = rate }, pool)
]

-- redis.Dial, Send and Close of a connection; a failed call gives no connection or `false`.
pub record Dialer : Type 1 where
  pub Conn : Type 0
  pub dial : Text → Text → Option Conn
  pub send : Text → Text → Conn → Conn × Bool
  pub close : Conn → Conn

-- A connection that is ready, or no connection, with the one that was closed if there was one.
pub data Dialled (A : Type 0) : Type 0 where
  connected : A → Dialled A
  given_up : A → Dialled A
  refused : Dialled A

module _ (d : Dialer) where
  open d use {Conn, dial, send, close}

  -- A command with one argument, which is not sent where the argument is empty.
  unfoldable pub send_unless_empty : Text → Text → Dialled Conn → Dialled Conn
  send_unless_empty command arg (connected c) =
      let (c', ok) = send command arg c in
      if is_empty arg then connected c else if ok then connected c' else given_up (close c')
  send_unless_empty command arg (given_up c) = given_up c
  send_unless_empty command arg refused = refused

  abbrev dialled : Option Conn → Dialled Conn
  dialled none = refused
  dialled (some c) = connected c

  -- Dial
  unfoldable pub dial_conn : PoolSettings → Dialled Conn
  unfolding send_unless_empty codes
  dial_conn p =
      send_unless_empty (codes "SELECT") p.index
        (send_unless_empty (codes "AUTH") p.auth (dialled (dial p.network p.address)))
