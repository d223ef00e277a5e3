-- ===== src/Tests/Queues.antt =====
-- The theorems about the message queue at concrete inputs.
use zam_tok.Prelude.{ℕ, ℤ, true, false, [], ◌∷◌, none, some, ◌≡◌, refl, arith, ◌==◌, if◌then◌else◌}
use zam_tok.Queue.Posix.{flags, flags_posix}
use zam_tok.Queue.{returns, waits, Queue, enqueue, dequeue}
use zam_tok.Queue.Cells.{node}
use zam_tok.Queue.Filled.{Filled, PutIn, enqueue-PutIn, dequeue-waits}

-- A queue of at most two numbers, with one in it.
abbrev one_entry : Queue flags ℕ
one_entry = record {
  front = some 0;
  rear = some 0;
  size = 1;
  mutex = false;
  sem_empty = 1;
  sem_full = 1;
  heap = record { cell = λ j. if j == 0 then node 7 none else none; fresh = 1 };
}

one_entry-Filled : Filled flags_posix 2 one_entry (7 ∷ [])
one_entry-Filled = record {
  free = refl;
  full_is = refl;
  empty_is = refl;
  unused = λ n h. ground arith;
  chain = (0, 0, refl, refl, (refl, refl));
}

enqueue-PutIn_example :
    (out : ℤ × Queue flags ℕ) × (enqueue true (some 8) one_entry ≡ returns out)
    × PutIn flags_posix 2 true (7 ∷ []) 8 out
enqueue-PutIn_example =
    enqueue-PutIn flags_posix 2 true 8 one_entry (7 ∷ []) one_entry-Filled (omega arith)

dequeue-waits_example : dequeue 2 9 false one_entry ≡ waits
dequeue-waits_example = dequeue-waits flags_posix 2 9 false one_entry (7 ∷ []) one_entry-Filled
