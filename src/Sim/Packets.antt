-- ===== src/Sim/Packets.antt =====
-- cpp/sim_engine/sim_core/sim_core.cpp, the work packets of `tick` and `collision_check`: objects are
-- dealt to the workers in turn, and every object is paired with all that follow it in the list.
use nrtb_redo.Common.{
  ℕ, zero, suc, ◌+◌, ◌*◌, ◌%◌, ◌<◌, ◌≤◌, leb, ◌≡◌, ◌≢◌, refl, sym, ap, ◌∙◌, subst, Bool, true, ◌&&◌,
  List, [], ◌∷◌, ◌++◌, if◌then◌else◌, ◌==◌, length, arith,
}
use mathlib.Core.Path.{ap₂}
use native.Mathlib.Nat.{mod-lt}
use nrtb_redo.Sim.{Clash}

module _ {A : Type 0} where
  -- `packets[i].push_back(x)`
  unfoldable pub push_at : ℕ → A → List (List A) → List (List A)
  push_at i x [] = []
  push_at zero x (p ∷ ps) = (p ++ (x ∷ [])) ∷ ps
  push_at (suc i) x (p ∷ ps) = p ∷ push_at i x ps

  -- `packets(worker_count)`
  unfoldable pub empty_packets : ℕ → List (List A)
  empty_packets zero = []
  empty_packets (suc n) = [] ∷ empty_packets n

  unfoldable pub deal_loop : ℕ → ℕ → List A → List (List A) → List (List A)
  unfolding push_at
  deal_loop n current [] packets = packets
  deal_loop n current (x ∷ xs) packets =
      deal_loop n (current + 1) xs (push_at (current % n) x packets)

  unfoldable pub deal : ℕ → List A → List (List A)
  unfolding deal_loop empty_packets
  deal n xs = deal_loop n 0 xs (empty_packets n)

  abbrev pub concat : List (List A) → List A
  concat [] = []
  concat (p ∷ ps) = p ++ concat ps

  -- How many items pass a test.
  abbrev pub count : (A → Bool) → List A → ℕ
  count p [] = 0
  count p (x ∷ xs) = (if p x then 1 else 0) + count p xs

  pub count-append : (p : A → Bool) (xs ys : List A) → count p (xs ++ ys) ≡ count p xs + count p ys
  count-append p [] ys = omega arith
  count-append p (x ∷ xs) ys = omega (arith, count-append p xs ys)

  -- The same items, in any order.
  abbrev pub SameItems : List A → List A → Type 0
  SameItems xs ys = (p : A → Bool) → count p xs ≡ count p ys

  length-push_at : (i : ℕ) (x : A) (ps : List (List A)) → length (push_at i x ps) ≡ length ps
  unfolding push_at
  length-push_at i x [] = refl
  length-push_at zero x (q ∷ ps) = refl
  length-push_at (suc i) x (q ∷ ps) = ap suc (length-push_at i x ps)

  count-push_at :
      (p : A → Bool) (i : ℕ) (x : A) (ps : List (List A))
      → i < length ps
      → count p (concat (push_at i x ps)) ≡ (if p x then 1 else 0) + count p (concat ps)
  unfolding push_at
  count-push_at p i x [] h = absurd (omega arith)
  count-push_at p zero x (q ∷ ps) h = omega (
    arith,
    count-append p (q ++ (x ∷ [])) (concat ps),
    count-append p q (x ∷ []),
    count-append p q (concat ps),
  )
  count-push_at p (suc i) x (q ∷ ps) h = omega (
    arith,
    count-push_at p i x ps (omega arith),
    count-append p q (concat (push_at i x ps)),
    count-append p q (concat ps),
  )

  empty_packets_lem :
      (p : A → Bool) (n : ℕ)
      → (length (empty_packets n) ≡ n) × (count p (concat (empty_packets n)) ≡ 0)
  unfolding empty_packets
  empty_packets_lem p zero = (refl, refl)
  empty_packets_lem p (suc n) = (ap suc (empty_packets_lem p n).0, (empty_packets_lem p n).1)

  count-deal_loop :
      (p : A → Bool) (n current : ℕ) (xs : List A) (ps : List (List A))
      → 0 < n
      → length ps ≡ n
      → (length (deal_loop n current xs ps) ≡ n)
        × (count p (concat (deal_loop n current xs ps)) ≡ count p xs + count p (concat ps))
  unfolding deal_loop
  count-deal_loop p n current [] ps h e = (e, omega arith)
  count-deal_loop p n current (x ∷ xs) ps h e =
      let small = mod-lt current h in
      let (l, f) =
        count-deal_loop p n (current + 1) xs (push_at (current % n) x ps) h
          (length-push_at (current % n) x ps ∙ e) in
      (
        l,
        omega (
          arith,
          f,
          count-push_at p (current % n) x ps (subst (λ k. current % n < k) (sym e) small),
        ),
      )

  -- With at least one worker, `deal` makes one packet for each worker, and the packets together hold the
  -- same items as the list, each as often.
  pub deal-SameItems :
      (n : ℕ) (xs : List A) → 0 < n → (length (deal n xs) ≡ n) × SameItems (concat (deal n xs)) xs
  unfolding deal
  deal-SameItems n xs h =
      let counted =
        λ (p : A → Bool). count-deal_loop p n 0 xs (empty_packets n) h (empty_packets_lem p n).0 in
      ((counted (λ x. true)).0, λ p. omega (arith, (counted p).1, (empty_packets_lem p n).1))

unfoldable pub pair_with : ℕ → List ℕ → List Clash
pair_with x [] = []
pair_with x (y ∷ ys) = record { a = x; b = y } ∷ pair_with x ys

-- The two nested loops over `all_objects`.
unfoldable pub pairs : List ℕ → List Clash
unfolding pair_with
pairs [] = []
pairs (x ∷ xs) = pair_with x xs ++ pairs xs

abbrev pub is_clash : ℕ → ℕ → Clash → Bool
is_clash i j k = (k.a == i) && (k.b == j)

abbrev pub copies : ℕ → List ℕ → ℕ
copies i xs = count (λ x. x == i) xs

count-pair_with :
    (i j x : ℕ) (ys : List ℕ)
    → count (is_clash i j) (pair_with x ys) ≡ (if x == i then copies j ys else 0)
unfolding pair_with
count-pair_with i j x [] = ground arith
count-pair_with i j x (y ∷ ys) = ground (arith, count-pair_with i j x ys)

times_one_plus : (a b : ℕ) → (1 + a) * b ≡ b + a * b
times_one_plus a b = ground arith

times_plus_one : (a b : ℕ) → a * (1 + b) ≡ a + a * b
times_plus_one a b = ground arith

count-pairs :
    (i j : ℕ) (xs : List ℕ)
    → i ≢ j
    → count (is_clash i j) (pairs xs) + count (is_clash j i) (pairs xs) ≡ copies i xs * copies j xs
unfolding pairs
count-pairs i j [] h = omega arith
count-pairs i j (x ∷ xs) h = ground (
  arith,
  count-pairs i j xs h,
  count-append (is_clash i j) (pair_with x xs) (pairs xs),
  count-append (is_clash j i) (pair_with x xs) (pairs xs),
  count-pair_with i j x xs,
  count-pair_with j i x xs,
  times_one_plus (copies i xs) (copies j xs),
  times_plus_one (copies i xs) (copies j xs),
)

count-pairs_self : (i : ℕ) (xs : List ℕ) → copies i xs ≤ 1 → count (is_clash i i) (pairs xs) ≡ 0
unfolding pairs
count-pairs_self i [] h = refl
count-pairs_self i (x ∷ xs) h = ground (
  arith,
  count-pairs_self i xs,
  count-append (is_clash i i) (pair_with x xs) (pairs xs),
  count-pair_with i i x xs,
)

product_small : (a b : ℕ) → a ≤ 1 → b ≤ 1 → a * b ≡ (if leb 1 a && leb 1 b then 1 else 0)
product_small zero b h k = ground arith
product_small (suc zero) b h k = ground arith
product_small (suc (suc a)) b h k = absurd (omega arith)

-- With at least one worker, for two different objects each of which the list holds at most once, the
-- packets of `collision_check` hold the pair of the two exactly once, in one order or the other, if the
-- list holds both, and not at all if it does not; and they pair no such object with itself.
pub deal-pairs :
    (n i j : ℕ) (xs : List ℕ)
    → 0 < n
    → i ≢ j
    → copies i xs ≤ 1
    → copies j xs ≤ 1
    → (count (is_clash i j) (concat (deal n (pairs xs)))
          + count (is_clash j i) (concat (deal n (pairs xs)))
        ≡ (if leb 1 (copies i xs) && leb 1 (copies j xs) then 1 else 0))
      × (count (is_clash i i) (concat (deal n (pairs xs))) ≡ 0)
deal-pairs n i j xs h ne one_i one_j =
    let same = (deal-SameItems n (pairs xs) h).1 in
    let total = ap₂ (◌+◌) (same (is_clash i j)) (same (is_clash j i)) ∙ count-pairs i j xs ne in
    (
      total ∙ product_small (copies i xs) (copies j xs) one_i one_j,
      same (is_clash i i) ∙ count-pairs_self i xs one_i,
    )
