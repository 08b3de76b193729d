-- ===== src/Config/CommandLine.antt =====
-- The whole reading: a file, and the command line on top of it.
use nrtb_redo.Common.{
  ℕ, ◌≡◌, sym, ap, ◌∙◌, subst, false, List, [], ◌∷◌, ◌++◌, Option, none, some, Option-cases, inl,
  inr, append_assoc, append-nil,
}
use nrtb_redo.Common.Bytes.{Bytes}
use nrtb_redo.Config.{Values, Config, insert_value, clear, all}
use nrtb_redo.Config.Order.{IsSorted, insert_value-IsSorted, matching, matching-insert_value}
use nrtb_redo.Config.File.{read}
use nrtb_redo.Config.Loaded.{matching-cons}
use nrtb_redo.Config.Args.{Args, arg_pair, take_arg, take_args, named_exec, override, read_args}
use nrtb_redo.Config.Sorted.{Ordered, read-IsSorted}
use nrtb_redo.Config.Override.{overridden, all-override}

-- What the arguments give, in their order.
abbrev pub arg_list : List Bytes → Values
arg_list [] = []
arg_list (arg ∷ args) = elim (arg_pair arg) [ none ↦ arg_list args | some p ↦ p ∷ arg_list args ]

take_arg-none : (arg : Bytes) (got : Args) → arg_pair arg ≡ none → (take_arg arg got).0 ≡ got.0
unfolding take_arg
take_arg-none arg (cvars, filename) e = rw (e, take_arg)

take_arg-some :
    (arg : Bytes) (got : Args) (p : Bytes × Bytes)
    → arg_pair arg ≡ some p
    → (take_arg arg got).0 ≡ insert_value p.0 p.1 got.0
unfolding take_arg
take_arg-some arg (cvars, filename) (k, v) e = rw (e, take_arg)

arg_list-none :
    (arg : Bytes) (args : List Bytes) → arg_pair arg ≡ none → arg_list (arg ∷ args) ≡ arg_list args
arg_list-none arg args e = rw (e, arg_list)

arg_list-some :
    (arg : Bytes) (args : List Bytes) (p : Bytes × Bytes)
    → arg_pair arg ≡ some p
    → arg_list (arg ∷ args) ≡ p ∷ arg_list args
arg_list-some arg args p e = rw (e, arg_list)

take_args-cvars :
    (k : Bytes) (args : List Bytes) (got : Args)
    → IsSorted got.0
    → matching k (take_args args got).0 ≡ matching k got.0 ++ matching k (arg_list args)
unfolding take_args
take_args-cvars k [] got s = sym (append-nil (matching k got.0))
take_args-cvars k (arg ∷ args) got s = elim (Option-cases (arg_pair arg)) [
  | inl e ↦
      take_args-cvars k args (take_arg arg got) (subst IsSorted (sym (take_arg-none arg got e)) s)
      ∙ ap (λ vs. matching k vs ++ matching k (arg_list args)) (take_arg-none arg got e)
      ∙ ap (λ es. matching k got.0 ++ matching k es) (sym (arg_list-none arg args e))
  | inr ((j, w), e) ↦
      take_args-cvars k args (take_arg arg got)
        (subst IsSorted (sym (take_arg-some arg got (j, w) e)) (insert_value-IsSorted j w got.0 s))
      ∙ ap (λ vs. matching k vs ++ matching k (arg_list args)) (take_arg-some arg got (j, w) e)
      ∙ ap (λ xs. xs ++ matching k (arg_list args)) (matching-insert_value k j w got.0 s)
      ∙ append_assoc (matching k got.0) (matching k ((j, w) ∷ [])) (matching k (arg_list args))
      ∙ ap (◌++◌ (matching k got.0)) (
          matching-cons k (j, w) (arg_list args)
          ∙ ap (matching k) (sym (arg_list-some arg args (j, w) e)))
]

-- What the command line says before a file is read: the values of a name, and the file to read.
abbrev pub chosen_file : List Bytes → Bytes → Bytes
chosen_file argv filename = (take_args (named_exec argv) ([], filename)).1

module _ (fs : Bytes → Option Bytes) where
  read_args-some :
      (depth : ℕ) (argv : List Bytes) (filename : Bytes) (c d : Config)
      → read fs depth
          (chosen_file argv filename)
          false
          (record (clear c) { filename = chosen_file argv filename })
        ≡ some d
      → read_args fs depth argv filename c
        ≡ some
            (record d { values = override (take_args (named_exec argv) ([], filename)).0 d.values })
  unfolding read_args
  read_args-some depth argv filename c d e = rw (e, read_args)

  -- After the file was read as `d`, a name has the values of the file, the first of them replaced by
  -- the last value that the command line gives to the name; or that value alone, if the file has none;
  -- whatever the files hold and include.
  pub read_args_lem :
      (depth : ℕ) (argv : List Bytes) (filename : Bytes) (c d : Config)
      → read fs depth
          (chosen_file argv filename)
          false
          (record (clear c) { filename = chosen_file argv filename })
        ≡ some d
      → (e : Config) × (read_args fs depth argv filename c ≡ some e)
        × ((k : Bytes)
            → all k e.values
              ≡ overridden (matching k (arg_list (named_exec argv))) (all k d.values))
  read_args_lem depth argv filename c d h =
      let cvars : Values = (take_args (named_exec argv) ([], filename)).0 in
      let cleared : IsSorted (clear c).values = unfold clear in tt in
      let ordered : IsSorted d.values = subst Ordered h (
        read-IsSorted fs depth (chosen_file argv filename) false
          (record (clear c) { filename = chosen_file argv filename }) cleared) in
      (
        record d { values = override cvars d.values },
        read_args-some depth argv filename c d h,
        (λ k.
            all-override k cvars d.values ordered
            ∙ ap (λ vs. overridden vs (all k d.values))
                (take_args-cvars k (named_exec argv) ([], filename) tt)),
      )
