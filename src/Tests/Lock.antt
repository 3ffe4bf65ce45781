-- ===== src/Tests/Lock.antt =====
-- Witnesses for Lock: a Redis in memory that keeps the laws of the interface.
use parashield_backend.Base.{
  ℕ, ◌≡◌, refl, Bool, true, false, Option, none, some, ◌==◌, ==_refl, if◌then◌else◌,
}
use parashield_backend.Lock.{Redis, acquire, release, TaskResult, done}
use parashield_backend.Lock.Exclusion.{rest, acquires, releases, held_key_stays}

abbrev Store : Type 0
Store = ℕ → Option ℕ

abbrev write : ℕ → Option ℕ → Store → Store
write k v s = λ j. if j == k then v else s j

abbrev try_set : Option ℕ → ℕ → ℕ → Store → Store × Bool
try_set none k t s = (write k (some t) s, true)
try_set (some u) k t s = (s, false)

abbrev removed : Option ℕ → ℕ
removed none = 0
removed (some u) = 1

try_set_other :
    (o : Option ℕ) (k j t : ℕ) (s : Store) → (j == k) ≡ false → (try_set o k t s).0 j ≡ s j
try_set_other none k j t s e = rw e refl
try_set_other (some u) k j t s e = refl

-- Keys do not expire here by themselves.
abbrev redis : Redis
redis = record {
  State = Store;
  get = λ k s. s k;
  set_nx = λ k t ttl s. try_set (s k) k t s;
  del = λ k s. (write k none s, removed (s k));
  pexpire = λ k ttl s. (s, removed (s k));
  set_nx-free = λ k t ttl s e. rw (e, ==_refl k) (refl, refl);
  set_nx-held = λ k t u ttl s e. rw e refl;
  get-del = λ k s. rw (==_refl k) refl;
  del-held = λ k u s e. rw e refl;
  get-pexpire = λ k j ttl s. refl;
  get-set_nx-other = λ k j t ttl s e. try_set_other (s k) k j t s e;
  get-del-other = λ k j s e. rw e refl;
}

abbrev empty : Store
empty = λ k. none

-- Key 1 is held by token 11.
abbrev held : Store
held = write 1 (some 11) empty

-- A task that lets its lock expire and be taken by token 22.
abbrev overrun : Store → TaskResult ℕ ℕ × Store
overrun s = (done 5, write 1 (some 22) s)

held_key_stays_example :
    (release redis true 1 22 (acquire redis true 1 22 900 held).1).1 1 ≡ some 11
held_key_stays_example =
    held_key_stays redis 1 11 held (release redis true 1 22 (acquire redis true 1 22 900 held).1).1
      (releases true 1 22 refl (acquires true 1 22 900 rest)) refl
