-- ===== src/Lock.antt =====
-- src/redis/distributed-lock.service.ts over an interface of Redis. Keys and tokens are numbers. Each
-- call of the service may find Redis unreachable, which is an argument of the call.
pub mod Exclusion
use parashield_backend.Base.{
  ℕ, zero, suc, ◌+◌, ◌≡◌, ◌≢◌, ◌⊎◌, Bool, true, false, Option, none, some, ◌==◌, if◌then◌else◌,
}

-- The Redis commands that the service sends, with what they document: SET NX sets a missing key only,
-- DEL removes a key, PEXPIRE keeps its value.
pub record Redis : Type 1 where
  pub State : Type 0
  pub get : ℕ → State → Option ℕ
  -- SET key token PX ttl NX, and whether the answer is 'OK'
  pub set_nx : ℕ → ℕ → ℕ → State → State × Bool
  pub del : ℕ → State → State × ℕ
  pub pexpire : ℕ → ℕ → State → State × ℕ
  pub set_nx-free :
      (k t ttl : ℕ) (s : State)
      → get k s ≡ none
      → ((set_nx k t ttl s).1 ≡ true) × (get k (set_nx k t ttl s).0 ≡ some t)
  pub set_nx-held : (k t u ttl : ℕ) (s : State) → get k s ≡ some u → set_nx k t ttl s ≡ (s, false)
  pub get-del : (k : ℕ) (s : State) → get k (del k s).0 ≡ none
  pub del-held : (k u : ℕ) (s : State) → get k s ≡ some u → (del k s).1 ≡ 1
  pub get-pexpire : (k j ttl : ℕ) (s : State) → get j (pexpire k ttl s).0 ≡ get j s
  -- commands on another key
  pub get-set_nx-other :
      (k j t ttl : ℕ) (s : State) → (j == k) ≡ false → get j (set_nx k t ttl s).0 ≡ get j s
  pub get-del-other : (k j : ℕ) (s : State) → (j == k) ≡ false → get j (del k s).0 ≡ get j s

-- `redis.call("GET", KEYS[1]) == ARGV[1]`
abbrev pub is_token : Option ℕ → ℕ → Bool
is_token none token = false
is_token (some held) token = held == token

-- What a run under the lock gives: `{ executed: false }`, a result, or the task's exception.
pub data RunResult (T E : Type 0) : Type 0 where
  not_executed : RunResult T E
  executed : T → RunResult T E
  task_threw : E → RunResult T E

-- What the task returns or throws.
pub data TaskResult (T E : Type 0) : Type 0 where
  done : T → TaskResult T E
  failed : E → TaskResult T E

module _ (redis : Redis) where
  open redis use {State, get, set_nx, del, pexpire}

  -- `acquire`; `token` is the random UUID
  unfoldable pub acquire : Bool → ℕ → ℕ → ℕ → State → Option ℕ × State
  acquire reachable key token ttl_ms s =
      let (t, ok) = set_nx key token ttl_ms s in
      if reachable then (if ok then some token else none, t) else (none, s)

  -- COMPARE_AND_DELETE_LUA
  unfoldable pub compare_and_delete : ℕ → ℕ → State → State × ℕ
  compare_and_delete key token s = if is_token (get key s) token then del key s else (s, 0)

  -- RENEW_LOCK_LUA
  unfoldable pub renew_lock : ℕ → ℕ → ℕ → State → State × ℕ
  renew_lock key token ttl_ms s =
      if is_token (get key s) token then pexpire key ttl_ms s else (s, 0)

  unfoldable pub release : Bool → ℕ → ℕ → State → Bool × State
  unfolding compare_and_delete
  release reachable key token s =
      let (t, n) = compare_and_delete key token s in if reachable then (n == 1, t) else (false, s)

  unfoldable pub renew : Bool → ℕ → ℕ → ℕ → State → Bool × State
  unfolding renew_lock
  renew reachable key token ttl_ms s =
      let (t, n) = renew_lock key token ttl_ms s in if reachable then (n == 1, t) else (false, s)

  abbrev pub result_of : {T E : Type 0} → TaskResult T E → RunResult T E
  result_of (done a) = executed a
  result_of (failed e) = task_threw e

  abbrev pub run_task :
      {T E : Type 0}
      → Option ℕ
      → Bool
      → ℕ
      → (State → TaskResult T E × State)
      → State
      → RunResult T E × State
  run_task none release_reachable key task s = (not_executed, s)
  run_task (some token) release_reachable key task s =
      let (r, t) = task s in (result_of r, (release release_reachable key token t).1)

  -- `runWithLock`. The task takes Redis from the state that it starts in to the one that it ends in,
  -- with the heartbeat's renewals and whatever other instances did meanwhile.
  unfoldable pub run_with_lock :
      {T E : Type 0}
      → Bool
      → Bool
      → ℕ
      → ℕ
      → ℕ
      → (State → TaskResult T E × State)
      → State
      → RunResult T E × State
  unfolding acquire release
  run_with_lock acquire_reachable release_reachable key token ttl_ms task s =
      let (held, t) = acquire acquire_reachable key token ttl_ms s in
      run_task held release_reachable key task t
