-- ===== src/Lock/Exclusion.antt =====
-- The lock of src/redis/distributed-lock.service.ts excludes, and is released by its holder alone.
use parashield_backend.Base.{
  ℕ, ◌≡◌, refl, sym, ap, ◌∙◌, ◌⊎◌, inl, inr, Bool, true, false, none, some, ◌==◌, ==_refl, ==_iff,
  Bool-cases,
}
use parashield_backend.Lock.{
  Redis, is_token, acquire, compare_and_delete, release, renew_lock, renew, not_executed,
  TaskResult, result_of, run_with_lock,
}

module _ (redis : Redis) where
  open redis use {State, get, set_nx}

  -- A step of an instance whose token is not `t`, on a key, whatever it can reach.
  pub data Foreign (t : ℕ) (s : State) : State → Type 0 where
    rest : Foreign t s s
    acquires :
        {u : State} (reachable : Bool) (k other ttl : ℕ)
        → Foreign t s u
        → Foreign t s (acquire redis reachable k other ttl u).1
    releases :
        {u : State} (reachable : Bool) (k other : ℕ)
        → (t == other) ≡ false
        → Foreign t s u
        → Foreign t s (release redis reachable k other u).1
    renews :
        {u : State} (reachable : Bool) (k other ttl : ℕ)
        → Foreign t s u
        → Foreign t s (renew redis reachable k other ttl u).1

  acquire_keeps :
      (reachable : Bool) (j k t other ttl : ℕ) (s : State)
      → get j s ≡ some t
      → get j (acquire redis reachable k other ttl s).1 ≡ some t
  unfolding acquire
  acquire_keeps false j k t other ttl s e = e
  acquire_keeps true j k t other ttl s e = elim (Bool-cases (j == k)) [
    | inr other_key ↦ redis.get-set_nx-other k j other ttl s other_key ∙ e
    | inl same ↦
        let held : get k s ≡ some t = rw (← (==_iff j k).0 same) e in
        let kept : set_nx k other ttl s ≡ (s, false) = redis.set_nx-held k other t ttl s held in
        ap (λ r. get j r.0) kept ∙ e
  ]

  release_keeps :
      (reachable : Bool) (j k t other : ℕ) (s : State)
      → (t == other) ≡ false
      → get j s ≡ some t
      → get j (release redis reachable k other s).1 ≡ some t
  unfolding release compare_and_delete
  release_keeps false j k t other s n e = e
  release_keeps true j k t other s n e = elim (Bool-cases (is_token (get k s) other)) [
    | inr miss ↦ rw (compare_and_delete, miss) e
    | inl hit ↦ elim (Bool-cases (j == k)) [
      | inr other_key ↦ rw (compare_and_delete, hit) (redis.get-del-other k j s other_key ∙ e)
      | inl same ↦
          let held : get k s ≡ some t = rw (← (==_iff j k).0 same) e in
          let own : (t == other) ≡ true = sym (ap (λ o. is_token o other) held) ∙ hit in cc
    ]
  ]

  renew_keeps :
      (reachable : Bool) (j k t other ttl : ℕ) (s : State)
      → get j s ≡ some t
      → get j (renew redis reachable k other ttl s).1 ≡ some t
  unfolding renew renew_lock
  renew_keeps false j k t other ttl s e = e
  renew_keeps true j k t other ttl s e = elim (Bool-cases (is_token (get k s) other)) [
    | inr miss ↦ rw (renew_lock, miss) e
    | inl hit ↦ rw (renew_lock, hit) (redis.get-pexpire k j ttl s ∙ e)
  ]

  -- Whatever other instances do with the service (acquire, release, renew, in any order and number,
  -- on any key), a key that holds a token keeps it, as long as it does not expire. The others' tokens
  -- differ from it where they release.
  pub held_key_stays : (j t : ℕ) (s u : State) → Foreign t s u → get j s ≡ some t → get j u ≡ some t
  held_key_stays j t s u rest e = e
  held_key_stays j t s u (acquires {u = v} reachable k other ttl r) e =
      acquire_keeps reachable j k t other ttl v (held_key_stays j t s v r e)
  held_key_stays j t s u (releases {u = v} reachable k other n r) e =
      release_keeps reachable j k t other v n (held_key_stays j t s v r e)
  held_key_stays j t s u (renews {u = v} reachable k other ttl r) e =
      renew_keeps reachable j k t other ttl v (held_key_stays j t s v r e)

  -- While a key holds a token, or Redis cannot be reached, a run under the lock does not call its
  -- task and changes nothing.
  pub held_lock_skips :
      {T E : Type 0} (reachable released : Bool) (k token u ttl : ℕ)
      (task : State → TaskResult T E × State) (s : State)
      → ((reachable ≡ false) ⊎ (get k s ≡ some u))
      → run_with_lock redis reachable released k token ttl task s ≡ (not_executed, s)
  unfolding run_with_lock acquire
  held_lock_skips reachable released k token u ttl task s (inl down) = rw (down, run_with_lock) refl
  held_lock_skips false released k token u ttl task s (inr held) = refl
  held_lock_skips true released k token u ttl task s (inr held) =
      rw (redis.set_nx-held k token u ttl s held, run_with_lock) refl

  -- On a free key, with Redis reachable, a run holds its token when the task starts and gives the
  -- task's result or exception. The lock is gone afterwards if the token is still there when the task
  -- ends; if it expired and another instance holds the key, that instance keeps it.
  pub free_lock_runs :
      {T E : Type 0} (k token u ttl : ℕ) (task : State → TaskResult T E × State) (s : State)
      → get k s ≡ none
      → (get k (acquire redis true k token ttl s).1 ≡ some token)
        × ((run_with_lock redis true true k token ttl task s).0
            ≡ result_of redis (task (acquire redis true k token ttl s).1).0)
        × (get k (task (acquire redis true k token ttl s).1).1 ≡ some token
            → get k (run_with_lock redis true true k token ttl task s).1 ≡ none)
        × (get k (task (acquire redis true k token ttl s).1).1 ≡ some u
            → (u == token) ≡ false
            → get k (run_with_lock redis true true k token ttl task s).1 ≡ some u)
  unfolding run_with_lock acquire release compare_and_delete
  free_lock_runs k token u ttl task s free =
      let (ok, held) = redis.set_nx-free k token ttl s free in
      (
        held,
        rw (run_with_lock, ok) refl,
        λ still. rw (run_with_lock, ok) (by_hit still),
        λ stolen other.
            rw (run_with_lock, ok)
              (release_keeps true k k u token (task (set_nx k token ttl s).0).1 other stolen),
      )
    where
      by_hit :
          {t : State} → get k t ≡ some token → get k (compare_and_delete redis k token t).0 ≡ none
      by_hit {t = t} still =
          let hit : is_token (get k t) token ≡ true = rw still (==_refl token) in
          rw (compare_and_delete, hit) (redis.get-del k t)
