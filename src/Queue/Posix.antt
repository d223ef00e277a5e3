-- ===== src/Queue/Posix.antt =====
-- The mutex and the semaphores of POSIX, which src/SERVER/zt_queue.c uses: what the calls return is a record,
-- and what they are documented to do is a record of laws, with an instance that meets them.
use zam_tok.Prelude.{
  ℕ, ◌+◌, zero, suc, ◌<◌, ℤ, pos, Bool, true, false, Option, none, some, ◌≡◌, refl, arith,
}

-- A call that has to wait is `none`. A call is handed what it works on, and leaves it changed.
pub record Threads : Type 1 where
  pub Mutex : Type 0
  pub Sem : Type 0
  pub mutex_init : ℤ × Mutex
  pub sem_init : ℕ → ℤ × Sem
  pub lock : Mutex → Option (ℤ × Mutex)
  pub unlock : Mutex → ℤ × Mutex
  pub mutex_destroy : Mutex → ℤ
  pub wait : Sem → Option (ℤ × Sem)
  pub post : Sem → ℤ × Sem
  pub getvalue : Sem → ℤ × ℤ
  pub sem_destroy : Sem → ℤ

-- A mutex of the default kind makes its own holder wait too, as on Linux; a semaphore that is 0 makes the
-- caller wait, and its value is what is left of it. No signal interrupts a call.
pub record IsPosix (T : Threads) : Type 0 where
  pub held : T.Mutex → Bool
  pub count : T.Sem → ℕ
  pub lock_free :
      (m : T.Mutex)
      → held m ≡ false
      → (m' : T.Mutex) × (T.lock m ≡ some (pos 0, m')) × (held m' ≡ true)
  pub lock_held : (m : T.Mutex) → held m ≡ true → T.lock m ≡ none
  pub unlock_free : (m : T.Mutex) → held (T.unlock m).1 ≡ false
  pub wait_none : (s : T.Sem) → count s ≡ 0 → T.wait s ≡ none
  pub wait_some :
      (s : T.Sem)
      → 0 < count s
      → (s' : T.Sem) × (T.wait s ≡ some (pos 0, s')) × (count s' + 1 ≡ count s)
  pub post_count : (s : T.Sem) → count (T.post s).1 ≡ count s + 1
  pub getvalue_count : (s : T.Sem) → T.getvalue s ≡ (pos 0, pos (count s))
  pub init_free : (T.mutex_init.0 ≡ pos 0) × (held T.mutex_init.1 ≡ false)
  pub init_count : (n : ℕ) → ((T.sem_init n).0 ≡ pos 0) × (count (T.sem_init n).1 ≡ n)

abbrev try_lock : Bool → Option (ℤ × Bool)
try_lock true = none
try_lock false = some (pos 0, true)

abbrev try_wait : ℕ → Option (ℤ × ℕ)
try_wait zero = none
try_wait (suc n) = some (pos 0, n)

abbrev pub flags : Threads
flags = record {
  Mutex = Bool;
  Sem = ℕ;
  mutex_init = (pos 0, false);
  sem_init = λ n. (pos 0, n);
  lock = try_lock;
  unlock = λ m. (pos 0, false);
  mutex_destroy = λ m. pos 0;
  wait = try_wait;
  post = λ n. (pos 0, n + 1);
  getvalue = λ n. (pos 0, pos n);
  sem_destroy = λ s. pos 0;
}

pub flags_lock :
    (m : Bool) → m ≡ false → (m' : Bool) × (try_lock m ≡ some (pos 0, m')) × (m' ≡ true)
flags_lock false h = (true, refl, refl)
flags_lock true h = absurd (cc)

pub flags_held : (m : Bool) → m ≡ true → try_lock m ≡ none
flags_held true h = refl
flags_held false h = absurd (cc)

pub flags_none : (n : ℕ) → n ≡ 0 → try_wait n ≡ none
flags_none zero h = refl
flags_none (suc n) h = absurd (omega arith)

pub flags_some : (n : ℕ) → 0 < n → (n' : ℕ) × (try_wait n ≡ some (pos 0, n')) × (n' + 1 ≡ n)
flags_some zero h = absurd (omega arith)
flags_some (suc n) h = (n, refl, omega arith)

abbrev pub flags_posix : IsPosix flags
flags_posix = record {
  held = λ m. m;
  count = λ n. n;
  lock_free = flags_lock;
  lock_held = flags_held;
  unlock_free = λ m. refl;
  wait_none = flags_none;
  wait_some = flags_some;
  post_count = λ n. refl;
  getvalue_count = λ n. refl;
  init_free = (refl, refl);
  init_count = λ n. (refl, refl);
}
