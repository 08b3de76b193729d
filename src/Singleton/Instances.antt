-- ===== src/Singleton/Instances.antt =====
-- How many instances there are, and which one the threads get.
use nrtb_redo.Common.{
  ℕ, ◌+◌, ◌-◌, ◌≤◌, ◌≡◌, ◌≢◌, refl, sym, ap, ◌∙◌, subst, Bool, true, false, Option, none, some,
  ◌==◌, ==_iff, ◌⊎◌, inl, inr, Bool-cases, arith,
}
use nrtb_redo.Singleton.{
  Pc, idle, entered, waiting, locked, making, leaving, returning, got, deleting, deleted, forgotten,
  Shared, start, update, move, Step, call, see_none, see_some, lock, still_none, now_some, make,
  unlock, give, lock_delete, delete, delete_none, forget, unlock_delete, Run, here, next,
}

abbrev pub present : Option ℕ → ℕ
present none = 0
present (some a) = 1

-- There is an instance, unless instances are deleted.
abbrev Held : Bool → Option ℕ → Type 0
Held d me = d ≡ false → (a : ℕ) × (me ≡ some a)

-- What the place of a thread says about the shared state.
abbrev Fact : Bool → Option ℕ → Option ℕ → ℕ → ℕ → Pc → Type 0
Fact d me owner live j idle = Unit
Fact d me owner live j entered = Unit
Fact d me owner live j waiting = Unit
Fact d me owner live j locked = owner ≡ some j
Fact d me owner live j making = (owner ≡ some j) × (me ≡ none)
Fact d me owner live j leaving = (owner ≡ some j) × Held d me
Fact d me owner live j returning = Held d me
Fact d me owner live j (got a) = d ≡ false → me ≡ some a
Fact d me owner live j deleting = (owner ≡ some j) × (d ≡ true)
Fact d me owner live j deleted = (owner ≡ some j) × (d ≡ true) × (live ≡ 0)
Fact d me owner live j forgotten = (owner ≡ some j) × (d ≡ true) × (live ≡ 0)

record Inv (d : Bool) (s : Shared) : Type 0 where
  facts : (j : ℕ) → Fact d s.me s.owner s.live j (s.pc j)
  counted : (s.live ≡ present s.me) ⊎ ((j : ℕ) × (s.pc j ≡ deleted))

-- Thread `i` may change what the lock guards.
abbrev Owns : ℕ → Option ℕ → Type 0
Owns i owner = (owner ≡ none) ⊎ (owner ≡ some i)

not_mine : (i j : ℕ) (owner : Option ℕ) → j ≢ i → Owns i owner → owner ≢ some j
not_mine i j owner other (inl e) h = cc
not_mine i j owner other (inr e) h = other (cc)

-- An instance that threads may have a reference to stays.
abbrev Keeps : Bool → Option ℕ → Option ℕ → Type 0
Keeps d me me' = d ≡ false → (a : ℕ) → me ≡ some a → me' ≡ some a

Held-Keeps : (d : Bool) (me me' : Option ℕ) → Keeps d me me' → Held d me → Held d me'
Held-Keeps d me me' keep h e = let (a, is) = h e in (a, keep e a is)

other-Fact :
    (d : Bool) (i j : ℕ) (me me' owner owner' : Option ℕ) (live live' : ℕ) (p : Pc)
    → j ≢ i
    → Owns i owner
    → Keeps d me me'
    → Fact d me owner live j p
    → Fact d me' owner' live' j p
other-Fact d i j me me' owner owner' live live' idle n o k f = tt
other-Fact d i j me me' owner owner' live live' entered n o k f = tt
other-Fact d i j me me' owner owner' live live' waiting n o k f = tt
other-Fact d i j me me' owner owner' live live' locked n o k f = absurd (not_mine i j owner n o f)
other-Fact d i j me me' owner owner' live live' making n o k f = absurd (not_mine i j owner n o f.0)
other-Fact d i j me me' owner owner' live live' leaving n o k f =
    absurd (not_mine i j owner n o f.0)
other-Fact d i j me me' owner owner' live live' returning n o k f = Held-Keeps d me me' k f
other-Fact d i j me me' owner owner' live live' (got a) n o k f = λ e. k e a (f e)
other-Fact d i j me me' owner owner' live live' deleting n o k f =
    absurd (not_mine i j owner n o f.0)
other-Fact d i j me me' owner owner' live live' deleted n o k f =
    absurd (not_mine i j owner n o f.0)
other-Fact d i j me me' owner owner' live live' forgotten n o k f =
    absurd (not_mine i j owner n o f.0)

-- A step of thread `i` that changes shared variables.
changed :
    (d : Bool) (s : Shared) (i : ℕ) (p : Pc) (me' owner' : Option ℕ) (live' : ℕ)
    → Inv d s
    → Owns i s.owner
    → Keeps d s.me me'
    → Fact d me' owner' live' i p
    → (j : ℕ) → Fact d me' owner' live' j (update s.pc i p j)
changed d s i p me' owner' live' h o k mine j = elim (Bool-cases (j == i)) [
  | inl e ↦ let same : j ≡ i = (==_iff j i).0 e in rw (e, same) mine
  | inr e ↦ rw e (
      other-Fact d i j s.me me' s.owner owner' s.live live' (s.pc j)
        (λ same. cc (e, (==_iff j i).1 same)) o k (h.facts j))
]

-- A step that changes only the place of thread `i`.
moved :
    (d : Bool) (s : Shared) (i : ℕ) (p : Pc)
    → Inv d s
    → Fact d s.me s.owner s.live i p
    → (j : ℕ) → Fact d s.me s.owner s.live j (update s.pc i p j)
moved d s i p h mine j = elim (Bool-cases (j == i)) [
  | inl e ↦ let same : j ≡ i = (==_iff j i).0 e in rw (e, same) mine
  | inr e ↦ rw e (h.facts j)
]

here-Fact :
    {d : Bool} {s : Shared} (i : ℕ) {p : Pc} → Inv d s → s.pc i ≡ p → Fact d s.me s.owner s.live i p
here-Fact {d} {s} i h e = subst (λ p. Fact d s.me s.owner s.live i p) e (h.facts i)

-- The count is right while the owner of the lock is not behind `delete __me`.
counted_sole :
    (d : Bool) (s : Shared) (i : ℕ)
    → Inv d s
    → s.owner ≡ some i
    → s.pc i ≢ deleted
    → s.live ≡ present s.me
counted_sole d s i h own not_deleted = elim h.counted [
  | inl e ↦ e
  | inr (j, e) ↦
      let same : j ≡ i = owners_eq (here-Fact j h e).0 in
      absurd (not_deleted (ap s.pc (sym same) ∙ e))
]
  where
    owners_eq : {j : ℕ} → s.owner ≡ some j → j ≡ i
    owners_eq k = cc (k, own)

pub updated : (pc : ℕ → Pc) (i : ℕ) (p : Pc) → update pc i p i ≡ p
updated pc i p = let e : (i == i) ≡ true = (==_iff i i).1 refl in rw e refl

counted_moved :
    (d : Bool) (s : Shared) (i : ℕ) (p : Pc)
    → Inv d s
    → s.pc i ≢ deleted
    → (s.live ≡ present s.me) ⊎ ((j : ℕ) × (update s.pc i p j ≡ deleted))
counted_moved d s i p h n = elim h.counted [
  | inl e ↦ inl e
  | inr (j, e) ↦
      let other : (j == i) ≡ false = elim (Bool-cases (j == i)) [
        | inl same ↦ absurd (n (ap s.pc (sym ((==_iff j i).0 same)) ∙ e))
        | inr differs ↦ differs
      ] in
      inr (j, rw other e)
]

Keeps-same : (d : Bool) (me : Option ℕ) → Keeps d me me
Keeps-same d me e a h = h

is_deleting : {d : Bool} {me : Option ℕ} → d ≡ true → Keeps d me none
is_deleting e f a h = cc

Keeps-none : {d : Bool} {me : Option ℕ} (b : ℕ) → me ≡ none → Keeps d me (some b)
Keeps-none b e f a h = cc

not_deleted : (s : Shared) (i : ℕ) {p : Pc} → s.pc i ≡ p → p ≢ deleted → s.pc i ≢ deleted
not_deleted s i e n f = n (sym e ∙ f)

-- A step of a thread that has no lock and changes nothing but its place.
step_plain :
    (d : Bool) (s : Shared) (i : ℕ) (p q : Pc)
    → Inv d s
    → s.pc i ≡ q
    → q ≢ deleted
    → Fact d s.me s.owner s.live i p
    → Inv d (move i p s)
step_plain d s i p q h e n f = record {
  facts = moved d s i p h f;
  counted = counted_moved d s i p h (not_deleted s i e n);
}

-- A step that takes the lock or gives it back.
step_lock :
    (d : Bool) (s : Shared) (i : ℕ) (p q : Pc) (owner' : Option ℕ)
    → Inv d s
    → s.pc i ≡ q
    → q ≢ deleted
    → Owns i s.owner
    → Fact d s.me owner' s.live i p
    → Inv d (record (move i p s) { owner = owner' })
step_lock d s i p q owner' h e n o f = record {
  facts = changed d s i p s.me owner' s.live h o (Keeps-same d s.me) f;
  counted = counted_moved d s i p h (not_deleted s i e n);
}

make-Inv :
    (d : Bool) (s : Shared) (i : ℕ)
    → Inv d s
    → s.pc i ≡ making
    → Inv d (record (move i leaving s) { me = some s.made; made = s.made + 1; live = s.live + 1 })
make-Inv d s i h e =
    let f = here-Fact i h e in
    let live : s.live ≡ present s.me = counted_sole d s i h f.0 (not_deleted s i e (λ x. cc)) in
    let grown : s.live + 1 ≡ 1 = omega (arith, live ∙ ap present f.1) in
    record {
      facts =
          changed d s i leaving (some s.made) s.owner (s.live + 1) h (inr f.0)
            (Keeps-none {d = d} s.made f.1) (f.0, λ x. (s.made, refl));
      counted = inl grown;
    }

delete-Inv :
    (d : Bool) (s : Shared) (i : ℕ) (live' : ℕ)
    → Inv d s
    → s.pc i ≡ deleting
    → live' ≡ 0
    → Inv d (record (move i deleted s) { live = live' })
delete-Inv d s i live' h e z =
    let f = here-Fact i h e in
    record {
      facts =
          changed d s i deleted s.me s.owner live' h (inr f.0) (Keeps-same d s.me) (f.0, f.1, z);
      counted = inr (i, updated s.pc i deleted);
    }

forget-Inv :
    (d : Bool) (s : Shared) (i : ℕ)
    → Inv d s
    → s.pc i ≡ deleted
    → Inv d (record (move i forgotten s) { me = none })
forget-Inv d s i h e =
    let f = here-Fact i h e in
    record {
      facts =
          changed d s i forgotten none s.owner s.live h (inr f.0) (is_deleting f.1) (f.0, f.1, f.2);
      counted = inl f.2;
    }

deleting_live :
    (d : Bool) (s : Shared) (i : ℕ) → Inv d s → s.pc i ≡ deleting → s.live ≡ present s.me
deleting_live d s i h e = counted_sole d s i h (here-Fact i h e).0 (not_deleted s i e (λ x. cc))

Step-Inv : {d : Bool} {s t : Shared} → Step d s t → Inv d s → Inv d t
Step-Inv {d} {s} (call i e) h = step_plain d s i entered idle h e (λ x. cc) tt
Step-Inv {d} {s} (see_none i e m) h = step_plain d s i waiting entered h e (λ x. cc) tt
Step-Inv {d} {s} (see_some i a e m) h =
    step_plain d s i returning entered h e (λ x. cc) (λ x. (a, m))
Step-Inv {d} {s} (lock i e o) h = step_lock d s i locked waiting (some i) h e (λ x. cc) (inl o) refl
Step-Inv {d} {s} (still_none i e m) h =
    step_plain d s i making locked h e (λ x. cc) (here-Fact i h e, m)
Step-Inv {d} {s} (now_some i a e m) h =
    step_plain d s i leaving locked h e (λ x. cc) (here-Fact i h e, λ x. (a, m))
Step-Inv {d} {s} (make i e) h = make-Inv d s i h e
Step-Inv {d} {s} (unlock i e) h =
    let f = here-Fact i h e in step_lock d s i returning leaving none h e (λ x. cc) (inr f.0) f.1
Step-Inv {d} {s} (give i a e m) h = step_plain d s i (got a) returning h e (λ x. cc) (λ x. m)
Step-Inv {d} {s} (lock_delete i a t e o) h =
    step_lock d s i deleting (got a) (some i) h e (λ x. cc) (inl o) (refl, t)
Step-Inv {d} {s} (delete i a e m) h =
    let live = deleting_live d s i h e in
    delete-Inv d s i (s.live - 1) h e (omega (arith, live ∙ ap present m))
Step-Inv {d} {s} (delete_none i e m) h =
    delete-Inv d s i s.live h e (deleting_live d s i h e ∙ ap present m)
Step-Inv {d} {s} (forget i e) h = forget-Inv d s i h e
Step-Inv {d} {s} (unlock_delete i e) h =
    let f = here-Fact i h e in step_lock d s i idle forgotten none h e (λ x. cc) (inr f.0) tt

start-Inv : (d : Bool) → Inv d start
start-Inv d = record { facts = λ j. tt; counted = inl refl }

Run-Inv : {d : Bool} {s : Shared} → Run d s → Inv d s
Run-Inv {d} here = start-Inv d
Run-Inv (next r st) = Step-Inv st (Run-Inv r)

present_le : (me : Option ℕ) → present me ≤ 1
present_le none = omega arith
present_le (some a) = omega arith

-- However the threads interleave, there is never more than one instance, also while instances are
-- deleted. Where none is deleted, a thread that is about to dereference `__me` finds an instance there, and
-- all references that threads ever got are to the one instance.
pub Run-live :
    {d : Bool} {s : Shared}
    → Run d s
    → (s.live ≤ 1)
      × (d ≡ false
          → ((i : ℕ) → s.pc i ≡ returning → (a : ℕ) × (s.me ≡ some a))
            × ((i j a b : ℕ) → s.pc i ≡ got a → s.pc j ≡ got b → (a ≡ b) × (s.me ≡ some a)))
Run-live {d} {s} r =
    let h = Run-Inv r in
    (
      few h h.counted,
      λ e. (
        (λ i at. here-Fact i h at e),
        λ i j a b x y. (one_of (here-Fact i h x e) (here-Fact j h y e), here-Fact i h x e),
      ),
    )
  where
    one_of : {a b : ℕ} → s.me ≡ some a → s.me ≡ some b → a ≡ b
    one_of x y = cc

    few : Inv d s → (s.live ≡ present s.me) ⊎ ((j : ℕ) × (s.pc j ≡ deleted)) → s.live ≤ 1
    few h (inl e) = omega (arith, e, present_le s.me)
    few h (inr (j, e)) = omega (arith, (here-Fact j h e).2)
