-- ===== src/Queue.antt =====
-- src/SERVER/zt_queue.c, which the server's build leaves out: no header declares its types. `address_info_t`
-- and `MAX_QUEUE` are parameters, and the fields of the queue and of a node are those that the code uses.
pub mod Posix
pub mod Cells
pub mod Filled
use zam_tok.Prelude.{
  ℕ, ◌+◌, zero, suc, ◌-◌, ◌*◌, ◌≤◌, ◌<◌, ℤ, pos, negsuc, is_neg, is_pos, is_nat, Bool, true, false,
  not, ◌&&◌, ◌||◌, List, [], ◌∷◌, ◌++◌, Option, none, some, Bytes, codes, ◌≡◌, ◌≢◌, ◌↔◌, ◌⊎◌, inl,
  inr, refl, sym, ap, ◌∙◌, subst, arith, ◌==◌, ltb, leb, if◌then◌else◌, Bool-cases, Option-cases,
  length, take, drop, get_or, set, append_assoc, append-nil, length-append, All, replicate,
  List-cases,
}
use zam_tok.Queue.Posix.{Threads}

-- What a call comes to: it waits for ever where nobody else runs, it reads or writes memory that is not
-- its own, or it is cut off.
pub data Ran (A : Type 0) : Type 0 where
  returns : A → Ran A
  waits crashes out_of_fuel : Ran A

abbrev pub ran_then : {A B : Type 0} → Ran A → (A → Ran B) → Ran B
ran_then (returns a) f = f a
ran_then waits f = waits
ran_then crashes f = crashes
ran_then out_of_fuel f = out_of_fuel

-- A call of the threads, and what follows it.
abbrev pub called : {A B : Type 0} → Option A → (A → Ran B) → Ran B
called none f = waits
called (some a) f = f a

-- `Node`; a pointer is the number of a cell.
pub record Node (A : Type 0) : Type 0 where
  pub address_info : A
  pub next : Option ℕ

-- The cells that `malloc` gives out, one after another; one that is freed, or was never given out, is `none`.
pub record Heap (A : Type 0) : Type 0 where
  pub cell : ℕ → Option (Node A)
  pub fresh : ℕ

unfoldable pub write_cell : {A : Type 0} → ℕ → Option (Node A) → Heap A → Heap A
write_cell n v h = record h { cell = λ j. if j == n then v else h.cell j }

pub record Queue (T : Threads) (A : Type 0) : Type 0 where
  pub front : Option ℕ
  pub rear : Option ℕ
  pub size : ℕ
  pub mutex : T.Mutex
  pub sem_empty : T.Sem
  pub sem_full : T.Sem
  pub heap : Heap A

module _ {T : Threads} {A : Type 0} where
  -- `MUTEX_UNLOCK` and `SEM_POST`, whose failures are only printed
  abbrev pub unlocked : Queue T A → Queue T A
  unlocked q = record q { mutex = (T.unlock q.mutex).1 }

  -- The new node behind the last one.
  unfoldable pub link_node : A → Queue T A → Ran (Queue T A)
  unfolding write_cell
  link_node info q =
      let n = q.heap.fresh in
      let grown : Heap A = record {
        cell = (write_cell n (some (record { address_info = info; next = none })) q.heap).cell;
        fresh = n + 1;
      } in
      elim q.rear [
        | none ↦
            returns (record q { front = some n; rear = some n; size = q.size + 1; heap = grown })
        | some r ↦ elim (q.heap.cell r) [
          | none ↦ crashes
          | some last ↦ returns (record q {
            rear = some n;
            size = q.size + 1;
            heap = write_cell r (some (record last { next = some n })) grown;
          })
        ]
      ]

  -- With the mutex locked; `malloc` succeeds or not.
  unfoldable pub put_node : Bool → A → Queue T A → Ran (ℤ × Queue T A)
  unfolding link_node
  put_node malloc info q =
      if malloc
      then ran_then (link_node info q) (λ q'.
        let q1 = unlocked q' in returns (pos 0, record q1 { sem_full = (T.post q1.sem_full).1 }))
      else let q1 = unlocked q in
        returns (negsuc 0, record q1 { sem_empty = (T.post q1.sem_empty).1 })

  -- A `data` that is NULL is `none`.
  unfoldable pub enqueue : Bool → Option A → Queue T A → Ran (ℤ × Queue T A)
  unfolding put_node
  enqueue malloc none q = returns (negsuc 0, q)
  enqueue malloc (some info) q = called (T.wait q.sem_empty) (λ waited.
      let q1 = record q { sem_empty = waited.1 } in
      if is_neg waited.0
      then returns (negsuc 0, q1)
      else called (T.lock q1.mutex) (λ locked.
        let q2 = record q1 { mutex = locked.1 } in
        if is_neg locked.0 then returns (negsuc 0, q2) else put_node malloc info q2))

  -- `is_empty` and `is_full`, which differ in the value of `sem_empty` that they ask for: the code, and the
  -- flag if it is set. They destroy the queue if the semaphore cannot be read.
  unfoldable pub ask_value :
      ℕ → (Queue T A → Ran (ℤ × Queue T A)) → Queue T A → Ran ((ℤ × Option Bool) × Queue T A)
  ask_value value destroy q = called (T.lock q.mutex) (λ locked.
      let q1 = record q { mutex = locked.1 } in
      let got = T.getvalue q1.sem_empty in
      if is_neg locked.0
      then returns ((negsuc 0, none), q1)
      else if is_neg got.0
      then ran_then (destroy q1) (λ out. returns ((negsuc 0, none), out.1))
      else returns ((pos 0, some (is_nat got.1 value)), unlocked q1))

  -- What `dequeue` does once it knows whether the queue is empty.
  unfoldable pub take_node : Bool → Queue T A → Ran ((ℤ × Option A) × Queue T A)
  unfolding write_cell
  take_node empty q =
      let q1 = unlocked q in
      if empty
      then returns ((negsuc 0, none), record q1 { sem_full = (T.post q1.sem_full).1 })
      else elim q.front [
        | none ↦ crashes
        | some temp ↦ elim (q.heap.cell temp) [
          | none ↦ crashes
          | some node ↦ returns (
            (pos 0, some node.address_info),
            record q1 {
              front = node.next;
              heap = write_cell temp none q.heap;
              sem_empty = (T.post q1.sem_empty).1;
            },
          )
        ]
      ]

module _ {T : Threads} {A : Type 0} (max_queue : ℕ) where
  unfoldable pub init_queue : Queue T A → ℤ × Queue T A
  init_queue q =
      let empty = T.sem_init max_queue in
      let full = T.sem_init 0 in
      let q0 = record q { front = none; rear = none; mutex = T.mutex_init.1 } in
      if not (is_nat T.mutex_init.0 0)
      then (negsuc 0, q0)
      else if not (is_nat empty.0 0)
      then (negsuc 0, record q0 { sem_empty = empty.1 })
      else if not (is_nat full.0 0)
      then (negsuc 0, record q0 { sem_empty = empty.1; sem_full = full.1 })
      else (pos 0, record q0 { sem_empty = empty.1; sem_full = full.1 })

  -- `dequeue` with a `data` that is no NULL. If `is_empty` fails, the mutex is unlocked and the code goes on
  -- with a flag that was never set, `garbage`.
  unfoldable pub dequeue_with :
      (Queue T A → Ran (ℤ × Queue T A)) → Bool → Queue T A → Ran ((ℤ × Option A) × Queue T A)
  unfolding ask_value take_node
  dequeue_with destroy garbage q = called (T.wait q.sem_full) (λ waited.
      let q1 = record q { sem_full = waited.1 } in
      if is_neg waited.0
      then returns ((negsuc 0, none), q1)
      else called (T.lock q1.mutex) (λ locked.
        let q2 = record q1 { mutex = locked.1 } in
        if not (is_nat locked.0 0)
        then returns ((negsuc 0, none), q2)
        else ran_then (ask_value max_queue destroy q2) (λ asked.
          let q3 = unlocked asked.1 in
          let q4 = record q3 { sem_full = (T.post q3.sem_full).1 } in
          elim asked.0.1 [ some empty ↦ take_node empty asked.1 | none ↦ take_node garbage q4 ])))

  -- `destroy_queue`, whose loop is its next call.
  unfoldable pub destroy_queue : ℕ → Bool → Queue T A → Ran (ℤ × Queue T A)
  unfolding ask_value dequeue_with
  destroy_queue zero garbage q = out_of_fuel
  destroy_queue (suc fuel) garbage q =
      ran_then (ask_value max_queue (destroy_queue fuel garbage) q) (λ asked. elim asked.0.1 [
        | none ↦ returns (negsuc 0, asked.1)
        | some true ↦ returns (pos 0, asked.1)
        | some false ↦ ran_then (dequeue_with (destroy_queue fuel garbage) garbage asked.1) (λ out.
            elim (is_neg out.0.0) [
              | true ↦ returns (negsuc 0, out.1)
              | false ↦ destroy_queue fuel garbage out.1
            ])
      ])

  unfoldable pub queue_is_empty : ℕ → Bool → Queue T A → Ran ((ℤ × Option Bool) × Queue T A)
  unfolding ask_value destroy_queue
  queue_is_empty fuel garbage q = ask_value max_queue (destroy_queue fuel garbage) q

  unfoldable pub queue_is_full : ℕ → Bool → Queue T A → Ran ((ℤ × Option Bool) × Queue T A)
  unfolding ask_value destroy_queue
  queue_is_full fuel garbage q = ask_value 0 (destroy_queue fuel garbage) q

  unfoldable pub dequeue : ℕ → Bool → Queue T A → Ran ((ℤ × Option A) × Queue T A)
  unfolding dequeue_with destroy_queue
  dequeue fuel garbage q = dequeue_with (destroy_queue fuel garbage) garbage q
