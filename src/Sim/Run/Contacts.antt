-- ===== src/Sim/Run/Contacts.antt =====
-- cpp/sim_engine/sim_core/sim_core.cpp: the contacts that `panopticon` gives out.
use nrtb_redo.Common.{ℕ, ◌≡◌, sym, ap, ◌∙◌, List, [], ◌∷◌, ◌++◌, map, append_assoc, append-nil}
use nrtb_redo.Floats.{Floats}
use nrtb_redo.Sim.{
  ObjectClass, Sim, refs, contact, add_contact, start_new, done_adding, contact_list,
}
use nrtb_redo.Sim.Run.{add_contacts, publish}

module _ {F O : Type 0} ⦃n : Floats F⦄ (c : ObjectClass F O) (ticks_of : F → ℕ) where
  add_contacts_lem :
      (rs : List ℕ) (s : Sim F O)
      → add_contacts c ticks_of rs s
        ≡ record s { t_list = s.t_list ++ map (λ r. contact c (s.store r)) rs }
  unfolding add_contacts add_contact
  add_contacts_lem [] s = ap (λ l. record s { t_list = l }) (sym (append-nil s.t_list))
  add_contacts_lem (r ∷ rs) s =
      add_contacts_lem rs _
      ∙ ap (λ l. record s { t_list = l })
          (append_assoc s.t_list (contact c (s.store r) ∷ []) (map (λ x. contact c (s.store x)) rs))

  -- While the contacts of a turn are collected, whatever objects are added, callers of `contact_list` get
  -- the list of the turn before; once they are published, they get one contact for each object of the
  -- simulation, in the order of the ids.
  pub contact_list-publish :
      (rs : List ℕ) (s : Sim F O)
      → (contact_list c (add_contacts c ticks_of rs (start_new c s)) ≡ contact_list c s)
        × (contact_list c (publish c ticks_of s)
            ≡ map (λ r. contact c (s.store r)) (refs s.all_objects))
  unfolding contact_list publish start_new done_adding
  contact_list-publish rs s = (
    ap (λ t. t.c_list) (add_contacts_lem rs (record s { t_list = [] })),
    ap (λ t. t.t_list) (add_contacts_lem (refs s.all_objects) (record s { t_list = [] })),
  )
