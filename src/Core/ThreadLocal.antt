-- ===== src/Core/ThreadLocal.antt =====
-- src/core/ThreadLocal.h: one pointer for each thread, to an object that the thread owns. Threads and
-- addresses are numbers. Whether `pthread_setspecific` succeeds in a thread is a parameter.
pub mod Ownership
use ccml.Base.{ℕ, ◌+◌, Bool, true, false, ◌&&◌, not, Option, none, some, ◌==◌, if◌then◌else◌}
use ccml.Utils.Logging.{Logged, cc_check, ◌>>=◌, ◌>>◌, quiet, behind, after_log}

-- The objects, by address, and what each thread stored under the key. Addresses from `next` on are
-- not in use yet.
pub record ThreadLocal (T : Type 0) : Type 0 where
  pub next : ℕ
  pub objects : ℕ → Option T
  pub specific : ℕ → Option ℕ

module _ {ℓ} {A : Type ℓ} where
  -- A function with one value replaced.
  abbrev pub updated : (ℕ → A) → ℕ → A → ℕ → A
  updated f i a j = if i == j then a else f j

module _ {T : Type 0} where
  -- The constructor; `created` is whether `pthread_key_create` returned 0.
  pub new_thread_local : Bool → Logged (ThreadLocal T)
  new_thread_local created =
      cc_check created "ThreadLocal.h" 25
      >> quiet (record { next = 0; objects = λ p. none; specific = λ t. none })

  -- `new`
  unfoldable pub allocate : T → ThreadLocal T → ℕ × ThreadLocal T
  allocate x s =
      (s.next, record s { next = s.next + 1; objects = updated s.objects s.next (some x) })

  -- `delete`, of an object that is not deleted yet.
  pub delete_object : ℕ → Option T → ThreadLocal T → Option (ThreadLocal T)
  delete_object p none s = none
  delete_object p (some x) s = some (record s { objects = updated s.objects p none })

  pub data_destructor : ℕ → ThreadLocal T → Option (ThreadLocal T)
  unfolding delete_object
  data_destructor p s = delete_object p (s.objects p) s

  -- `pthread_setspecific`
  unfoldable pub set_specific : ℕ → Option ℕ → ThreadLocal T → ThreadLocal T
  set_specific t p s = record s { specific = updated s.specific t p }

  -- `if(T* q = get(false)) data_destructor(q);`
  pub release : Option ℕ → ThreadLocal T → Option (ThreadLocal T)
  unfolding data_destructor
  release none s = some s
  release (some q) s = data_destructor q s

  -- What the system does for the key when a thread ends: the value is reset, and the destructor
  -- runs on what it was.
  pub thread_exit : ℕ → ThreadLocal T → Option (ThreadLocal T)
  unfolding release set_specific
  thread_exit t s = release (s.specific t) (set_specific t none s)

module _ {T : Type 0} (stores : ℕ → Bool) where
  -- `CC_CHECK(pthread_setspecific(…) == 0)` in a thread, at a line.
  unfoldable pub checked_set : ℕ → ℕ → Option ℕ → ThreadLocal T → Logged (ThreadLocal T)
  unfolding set_specific
  checked_set line t p s =
      cc_check (stores t) "ThreadLocal.h" line >> quiet (if stores t then set_specific t p s else s)

  -- The branch of `get` that makes an object.
  unfoldable pub create_local : ℕ → ℕ × ThreadLocal T → Logged (Option ℕ × ThreadLocal T)
  unfolding checked_set
  create_local t (p, s) = checked_set 35 t (some p) s >>= λ s'. quiet (some p, s')

  -- `get(create_local)`; `fresh` is the value of `new T()`.
  unfoldable pub get_from :
      T → ℕ → Bool → Option ℕ → ThreadLocal T → Logged (Option ℕ × ThreadLocal T)
  unfolding create_local allocate
  get_from fresh t create (some p) s = quiet (some p, s)
  get_from fresh t true none s = create_local t (allocate fresh s)
  get_from fresh t false none s = quiet (none, s)

  unfoldable pub get : T → ℕ → Bool → ThreadLocal T → Logged (Option ℕ × ThreadLocal T)
  unfolding get_from
  get fresh t create s = get_from fresh t create (s.specific t) s

  -- `operator T*`
  pub as_pointer : T → ℕ → ThreadLocal T → Logged (Option ℕ × ThreadLocal T)
  unfolding get
  as_pointer fresh t s = get fresh t true s

  object_at : Option ℕ × ThreadLocal T → Option T × ThreadLocal T
  object_at (none, s) = (none, s)
  object_at (some p, s) = (s.objects p, s)

  -- `operator*`: the object behind the pointer; `none` is undefined.
  pub dereferenced : T → ℕ → ThreadLocal T → Logged (Option T × ThreadLocal T)
  unfolding get object_at
  dereferenced fresh t s = get fresh t true s >>= λ r. quiet (object_at r)

  -- `set` behind that.
  pub set_released : ℕ → Option ℕ → Option (ThreadLocal T) → Option (Logged (ThreadLocal T))
  unfolding checked_set
  set_released t p none = none
  set_released t p (some s) = some (checked_set 44 t p s)

  pub set : ℕ → Option ℕ → ThreadLocal T → Option (Logged (ThreadLocal T))
  unfolding release set_released
  set t p s = set_released t p (release (s.specific t) s)
