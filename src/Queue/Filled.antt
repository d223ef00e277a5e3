-- ===== src/Queue/Filled.antt =====
-- The queue of src/SERVER/zt_queue.c as a bounded sequence.
use zam_tok.Prelude.{
  ℕ, ◌+◌, ◌≤◌, ◌<◌, ℤ, pos, negsuc, Bool, true, false, List, [], ◌∷◌, ◌++◌, none, some, ◌≡◌, inl,
  inr, refl, ap, arith, ◌==◌, if◌then◌else◌, Bool-cases, length, length-append,
}
use zam_tok.Queue.Posix.{Threads, IsPosix}
use zam_tok.Queue.{
  returns, waits, Queue, write_cell, init_queue, unlocked, link_node, put_node, enqueue, ask_value,
  dequeue_with, dequeue,
}
use zam_tok.Queue.Cells.{
  Cells, node, Chain, self_eq, last_node, linked, Segment-linked, linked_unused,
}

-- The queue holds the entries, the first one first: nobody holds the mutex, the semaphores count the entries
-- and the room that is left, and no cell is in use that `malloc` has not given out.
pub record Filled {T : Threads} {A : Type 0} (L : IsPosix T) (max_queue : ℕ) (q : Queue T A)
    (xs : List A) : Type 0 where
  pub free : L.held q.mutex ≡ false
  pub full_is : L.count q.sem_full ≡ length xs
  pub empty_is : L.count q.sem_empty + length xs ≡ max_queue
  pub unused : (n : ℕ) → q.heap.fresh ≤ n → q.heap.cell n ≡ none
  pub chain : Chain q.heap.cell q.front q.rear xs

module _ {T : Threads} {A : Type 0} where
  -- What a new node leaves: the mutex and the semaphores, and the longer list.
  record Appended (q q' : Queue T A) (xs : List A) : Type 0 where
    same_mutex : q'.mutex ≡ q.mutex
    same_empty : q'.sem_empty ≡ q.sem_empty
    same_full : q'.sem_full ≡ q.sem_full
    longer : Chain q'.heap.cell q'.front q'.rear xs
    still_unused : (n : ℕ) → q'.heap.fresh ≤ n → q'.heap.cell n ≡ none

  Unused : Queue T A → Type 0
  Unused q = (n : ℕ) → q.heap.fresh ≤ n → q.heap.cell n ≡ none

  link_node-Appended :
      (x : A) (q : Queue T A) (xs : List A)
      → Chain q.heap.cell q.front q.rear xs
      → Unused q
      → (q' : Queue T A) × (link_node x q ≡ returns q') × Appended q q' (xs ++ x ∷ [])
  unfolding link_node write_cell Unused
  link_node-Appended x q [] (no_front, no_rear) unused =
      let n = q.heap.fresh in
      let cells : Cells A = λ j. if j == n then node x none else q.heap.cell j in
      let q' : Queue T A = record q {
        front = some n;
        rear = some n;
        size = q.size + 1;
        heap = record { cell = cells; fresh = n + 1 };
      } in
      (
        q',
        rw no_rear refl,
        record {
          same_mutex = refl;
          same_empty = refl;
          same_full = refl;
          longer = (n, n, refl, refl, (refl, rw (self_eq n) refl));
          still_unused = λ j h.
              let other : (j == n) ≡ false = ground arith in rw other (unused j (omega arith));
        },
      )
  link_node-Appended x q (y ∷ ys) (f, r, at_front, at_rear, s) unused =
      let n = q.heap.fresh in
      let (w, last) = last_node q.heap.cell f y ys r s in
      let q' : Queue T A = record q {
        rear = some n;
        size = q.size + 1;
        heap = record { cell = linked q.heap.cell r w n x; fresh = n + 1 };
      } in
      (
        q',
        rw at_rear (rw last refl),
        record {
          same_mutex = refl;
          same_empty = refl;
          same_full = refl;
          longer = (
            f,
            n,
            at_front,
            refl,
            Segment-linked q.heap.cell f y ys r n w x s last (unused n (omega arith)),
          );
          still_unused = λ j h. linked_unused q.heap.cell n r w x j last (unused j (omega arith)) h;
        },
      )

module _ {T : Threads} {A : Type 0} (L : IsPosix T) (max_queue : ℕ) where
  -- What becomes of an entry that is put in, by whether `malloc` succeeds: it is the last one, or the entries
  -- are as they were.
  abbrev pub PutIn : Bool → List A → A → ℤ × Queue T A → Type 0
  PutIn true xs x (rc, q') = (rc ≡ pos 0) × Filled L max_queue q' (xs ++ x ∷ [])
  PutIn false xs x (rc, q') = (rc ≡ negsuc 0) × Filled L max_queue q' xs

  put_done :
      (x : A) (q q3 : Queue T A) (xs : List A) (e' : T.Sem)
      → Filled L max_queue q xs
      → L.count e' + 1 ≡ L.count q.sem_empty
      → q3.sem_empty ≡ e'
      → q3.sem_full ≡ q.sem_full
      → Chain q3.heap.cell q3.front q3.rear (xs ++ x ∷ [])
      → ((n : ℕ) → q3.heap.fresh ≤ n → q3.heap.cell n ≡ none)
      → Filled L max_queue
          (record (unlocked q3) { sem_full = (T.post q3.sem_full).1 })
          (xs ++ x ∷ [])
  put_done x q q3 xs e' h taken same_empty same_full chain unused = record {
    free = L.unlock_free q3.mutex;
    full_is = omega (
      arith,
      L.post_count q3.sem_full,
      ap L.count same_full,
      h.full_is,
      length-append {0} xs (x ∷ []),
    );
    empty_is =
        omega (arith, taken, ap L.count same_empty, h.empty_is, length-append {0} xs (x ∷ []));
    unused = unused;
    chain = chain;
  }

  -- Where the threads do what POSIX documents, and nobody else runs, `enqueue` puts an entry behind all
  -- others if there is room, returns 0, and keeps the count of the entries and of the room, or, where
  -- `malloc` fails, returns -1 and leaves the entries as they were.
  pub enqueue-PutIn :
      (malloc : Bool) (x : A) (q : Queue T A) (xs : List A)
      → Filled L max_queue q xs
      → length xs < max_queue
      → (out : ℤ × Queue T A) × (enqueue malloc (some x) q ≡ returns out) × PutIn malloc xs x out
  unfolding enqueue put_node Unused
  enqueue-PutIn malloc x q xs h lt =
      let (e', waited, taken) = L.wait_some q.sem_empty (omega (arith, h.empty_is)) in
      let (m', locked, now_held) = L.lock_free q.mutex h.free in
      let q2 : Queue T A = record q { sem_empty = e'; mutex = m' } in
      elim (Bool-cases malloc) [
        | inl e ↦
            let (q3, is_linked, appended) = link_node-Appended x q2 xs h.chain h.unused in
            rw e (
              (pos 0, record (unlocked q3) { sem_full = (T.post q3.sem_full).1 }),
              rw waited (rw locked (rw is_linked refl)),
              (
                refl,
                put_done x q q3 xs e' h taken appended.same_empty appended.same_full appended.longer
                    appended.still_unused,
              ),
            )
        | inr e ↦ rw e (
          (negsuc 0, record (unlocked q2) { sem_empty = (T.post e').1 }),
          rw waited (rw locked refl),
          (
            refl,
            record {
              free = L.unlock_free m';
              full_is = h.full_is;
              empty_is = omega (arith, L.post_count e', taken, h.empty_is);
              unused = h.unused;
              chain = h.chain;
            },
          ),
        )
      ]

  -- Where the threads do what POSIX documents and a mutex makes its holder wait, `dequeue` never returns from
  -- a queue of any entries, if nobody else runs: from an empty one it waits for an entry, and from any
  -- other it waits in `is_empty` for the mutex that it holds itself.
  pub dequeue-waits :
      (fuel : ℕ) (garbage : Bool) (q : Queue T A) (xs : List A)
      → Filled L max_queue q xs
      → dequeue max_queue fuel garbage q ≡ waits
  unfolding dequeue dequeue_with ask_value
  dequeue-waits fuel garbage q [] h = rw (L.wait_none q.sem_full h.full_is) refl
  dequeue-waits fuel garbage q (x ∷ xs) h =
      let (f', waited, taken) = L.wait_some q.sem_full (omega (arith, h.full_is)) in
      let (m', locked, now_held) = L.lock_free q.mutex h.free in
      rw waited (rw locked (rw (L.lock_held m' now_held) refl))

  -- A new queue holds nothing.
  init_queue-Filled :
      (q : Queue T A)
      → ((n : ℕ) → q.heap.fresh ≤ n → q.heap.cell n ≡ none)
      → (q' : Queue T A) × (init_queue max_queue q ≡ (pos 0, q')) × Filled L max_queue q' []
  unfolding init_queue
  init_queue-Filled q unused = (
    record q {
      front = none;
      rear = none;
      mutex = T.mutex_init.1;
      sem_empty = (T.sem_init max_queue).1;
      sem_full = (T.sem_init 0).1;
    },
    rw (L.init_free.0, (L.init_count max_queue).0, (L.init_count 0).0) refl,
    record {
      free = L.init_free.1;
      full_is = (L.init_count 0).1;
      empty_is = omega (arith, (L.init_count max_queue).1);
      unused = unused;
      chain = (refl, refl);
    },
  )
