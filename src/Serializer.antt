-- ===== src/Serializer.antt =====
-- cpp/common/serializer/serializer.h and serializer.cpp: the numbers for the ids. A call is one atomic step,
-- so the calls of several threads are one sequence.
use nrtb_redo.Common.{
  ℕ, zero, suc, ◌+◌, ◌%◌, ◌≤◌, ◌<◌, ◌≡◌, sym, ap, ◌∙◌, List, [], ◌∷◌, Option, some, get_elem?,
  arith,
}
use nrtb_redo.Common.Words.{u64_mod}

pub record Serializer : Type 0 where
  pub counter : ℕ

unfoldable pub construct : ℕ → Serializer
construct start = record { counter = start }

-- `counter++`
unfoldable pub call : Serializer → ℕ × Serializer
call s = (s.counter, record { counter = (s.counter + 1) % u64_mod })

-- What that many calls return.
unfoldable pub calls : ℕ → Serializer → List ℕ
unfolding call
calls zero s = []
calls (suc k) s = let (number, s1) = call s in number ∷ calls k s1

start_at : (start : ℕ) → start < u64_mod → (start + 0) % u64_mod ≡ start
start_at start h = omega arith

later_at : (start i : ℕ) → ((start + 1) % u64_mod + i) % u64_mod ≡ (start + suc i) % u64_mod
later_at start i = omega arith

calls_at :
    (k i start : ℕ)
    → start < u64_mod
    → i < k
    → get_elem? (calls k (construct start)) i ≡ some ((start + i) % u64_mod)
unfolding calls construct call
calls_at zero i start h lt = absurd (omega arith)
calls_at (suc k) zero start h lt = ap some (sym (start_at start h))
calls_at (suc k) (suc i) start h lt =
    calls_at k i ((start + 1) % u64_mod) (omega arith) (omega arith) ∙ ap some (later_at start i)

pub some_eq : {a b : ℕ} → ◌≡◌ {A = Option ℕ} (some a) (some b) → a ≡ b
some_eq e = cc

apart :
    (start i j : ℕ)
    → start < u64_mod
    → i < u64_mod
    → j < u64_mod
    → (start + i) % u64_mod ≡ (start + j) % u64_mod
    → i ≡ j
apart start i j h li lj e = omega arith

-- The numbers go up by one from the start, and round at 2 ^ 64; two of up to 2 ^ 64 calls never return
-- the same number.
pub calls_lem :
    (k start : ℕ)
    → start < u64_mod
    → ((i : ℕ) → i < k → get_elem? (calls k (construct start)) i ≡ some ((start + i) % u64_mod))
      × (k ≤ u64_mod
          → (i j : ℕ) → i < k
          → j < k
          → get_elem? (calls k (construct start)) i ≡ get_elem? (calls k (construct start)) j
          → i ≡ j)
calls_lem k start h = (
  (λ i lt. calls_at k i start h lt),
  λ few i j li lj e.
      apart start i j h (omega arith) (omega arith)
        (some_eq (sym (calls_at k i start h li) ∙ e ∙ calls_at k j start h lj)),
)
