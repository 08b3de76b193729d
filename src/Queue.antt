-- ===== src/Queue.antt =====
-- cpp/common/abs_queue/abs_queue.h over std::queue, which is cpp/common/linear_queue/linear_queue.h.
-- Each method runs under the queue's mutex or on one atomic; here it runs as a whole. `Queue.Threads`
-- takes `push` and the workers apart into the steps that other threads can come between.
pub mod Threads
use nrtb_redo.Common.{
  ℕ, ◌+◌, ◌%◌, ◌≡◌, refl, Bool, true, false, ◌&&◌, ◌||◌, List, [], ◌∷◌, ◌++◌, if◌then◌else◌, length,
  ◌==◌, arith,
}
use nrtb_redo.Common.Words.{u32_mod}

-- The counters are `std::atomic<int>`, kept as the bit pattern below 2 ^ 32.
pub record Queue {ℓ} (A : Type ℓ) : Type ℓ where
  pub buffer : List A
  pub in_count : ℕ
  pub out_count : ℕ
  pub completed : ℕ
  pub ready : Bool
  pub blocked : Bool

-- The outcome of one attempt of a method that may block or throw `queue_not_ready`.
pub data Attempt {ℓ} (A : Type ℓ) : Type ℓ where
  waits : Attempt A
  queue_not_ready : Attempt A
  undefined : Attempt A
  returns : A → Attempt A

abbrev pub wrap : ℕ → ℕ
wrap n = n % u32_mod

module _ {ℓ} {A : Type ℓ} where
  unfoldable pub empty : Queue A
  empty = record {
    buffer = [];
    in_count = 0;
    out_count = 0;
    completed = 0;
    ready = true;
    blocked = false;
  }

  abbrev pub is_empty : List A → Bool
  is_empty [] = true
  is_empty (x ∷ xs) = false

  -- `in_count++`
  unfoldable pub count_in : Queue A → Queue A
  count_in q = record q { in_count = wrap (q.in_count + 1) }

  -- `buffer.push(std::move(item))`
  unfoldable pub store : A → Queue A → Queue A
  store item q = record q { buffer = q.buffer ++ (item ∷ []) }

  unfoldable pub push : A → Queue A → Attempt (Queue A)
  unfolding count_in store
  push item q = if q.ready then returns (store item (count_in q)) else queue_not_ready

  -- The condition of the loop around `signal.wait`.
  abbrev pub must_wait : Queue A → Bool
  must_wait q = (is_empty q.buffer && q.ready) || (q.blocked && q.ready)

  -- `front()` of an empty std::queue is undefined.
  unfoldable pub take_front : Queue A → List A → Attempt (A × Queue A)
  take_front q [] = undefined
  take_front q (item ∷ rest) =
      returns (item, record q { buffer = rest; out_count = wrap (q.out_count + 1) })

  unfoldable pub pop : Queue A → Attempt (A × Queue A)
  unfolding take_front
  pop q = if must_wait q then waits else if q.ready then take_front q q.buffer else queue_not_ready

  unfoldable pub hold : Queue A → Queue A
  hold q = record q { blocked = true }

  unfoldable pub release : Queue A → Queue A
  release q = record q { blocked = false }

  unfoldable pub is_blocked : Queue A → Bool
  is_blocked q = q.blocked

  -- `while (buffer.size()) buffer.pop();`
  unfoldable pub drain : List A → List A
  drain [] = []
  drain (item ∷ rest) = drain rest

  unfoldable pub shutdown : Queue A → Queue A
  unfolding drain
  shutdown q = record q { ready = false; buffer = drain q.buffer }

  unfoldable pub clear : Queue A → Queue A
  unfolding drain
  clear q = record q { buffer = drain q.buffer }

  unfoldable pub size : Queue A → ℕ
  size q = length q.buffer

  unfoldable pub task_done : Queue A → Queue A
  task_done q = record q { completed = wrap (q.completed + 1) }

  -- `join` returns once this holds.
  abbrev pub is_joined : Queue A → Bool
  is_joined q = q.completed == q.in_count

  unfoldable pub join : Queue A → Attempt (Queue A)
  join q = if is_joined q then returns q else waits

  pub drain-eq-nil : (xs : List A) → drain xs ≡ []
  unfolding drain
  drain-eq-nil [] = refl
  drain-eq-nil (x ∷ xs) = drain-eq-nil xs

  -- `pop` gives the oldest item only while the queue is open and not held, and takes just that.
  pub pop-returns :
      (q : Queue A) (a : A) (r : Queue A)
      → pop q ≡ returns (a, r)
      → (q.ready ≡ true)
        × (q.blocked ≡ false)
        × (q.buffer ≡ a ∷ r.buffer)
        × (r ≡ record q { buffer = r.buffer; out_count = wrap (q.out_count + 1) })
  unfolding pop
  pop-returns q a r e = ground arith
