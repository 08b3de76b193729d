-- ===== src/Bot/Server.antt =====
-- cpp/sim_engine/bcp_server/bcp_server.cpp, `bcp_listener::processor`: a connection becomes a bot while the
-- simulation has fewer objects than the limit.
use nrtb_redo.Common.{
  ℕ, ◌+◌, ◌<◌, ◌≡◌, refl, sym, ap, ◌∙◌, true, List, [], ◌∷◌, ◌++◌, if◌then◌else◌, ltb, map,
  append_assoc, append-nil, arith,
}
use nrtb_redo.Common.Bytes.{Bytes, codes}
use nrtb_redo.Sim.{ObjectClass, Message, Flow, go, Sim, size, add_object, order, an_object}
use nrtb_redo.Sim.Init.{queued, add_object_running}

-- What the control programs that were turned away are sent.
abbrev pub not_available : Bytes
not_available = codes "NOT_AVAILALE\r"

-- The simulation and the count of the rejected; an exception of `add_object` ends the loop.
pub record Served (F O : Type 0) : Type 0 where
  pub sim : Flow (Sim F O)
  pub rejected : ℕ

module _ {F O : Type 0} (c : ObjectClass F O) (pop_limit : ℕ) where
  -- One connection, with the bot that stands for it.
  unfoldable pub admit : ℕ → Sim F O → ℕ → Served F O
  unfolding size add_object
  admit bot s rejected =
      if ltb (size c s) pop_limit
      then record { sim = add_object c bot s; rejected = rejected }
      else record { sim = go s; rejected = rejected + 1 }

  abbrev after : Served F O → (Sim F O → ℕ → Served F O) → Served F O
  after v next = elim v.sim [ go s ↦ next s v.rejected | _ ↦ v ]

  unfoldable pub processor : List ℕ → Sim F O → ℕ → Served F O
  unfolding admit
  processor [] s rejected = record { sim = go s; rejected = rejected }
  processor (bot ∷ bots) s rejected = after (admit bot s rejected) (processor bots)

  abbrev adds : List ℕ → List Message
  adds bots = map (λ r. order 1 (an_object r)) bots

  admit_running :
      (bot : ℕ) (s : Sim F O) (rejected : ℕ)
      → s.is_running ≡ true
      → s.messages.ready ≡ true
      → size c s < pop_limit
      → admit bot s rejected
        ≡ record { sim = go (queued c (order 1 (an_object bot)) s); rejected = rejected }
  unfolding admit
  admit_running bot s rejected run e few =
      ap
        (λ b.
          if b
          then record { sim = add_object c bot s; rejected = rejected }
          else record { sim = go s; rejected = rejected + 1 })
        (below (size c s) pop_limit few)
      ∙ ap (λ f. record { sim = f; rejected = rejected }) (add_object_running c bot s run e)
    where
      below : (a b : ℕ) → a < b → ltb a b ≡ true
      below a b h = ground arith

  -- The limit is looked at against the objects of the simulation, and a running simulation takes a new
  -- object only in its next turn: one free place lets in every connection that comes before that,
  -- however many; none is rejected.
  pub processor_running :
      (bots : List ℕ) (s : Sim F O) (rejected : ℕ)
      → s.is_running ≡ true
      → s.messages.ready ≡ true
      → size c s < pop_limit
      → (t : Sim F O) × (processor bots s rejected ≡ record { sim = go t; rejected = rejected })
        × (t.messages.buffer ≡ s.messages.buffer ++ adds bots)
  unfolding processor
  processor_running [] s rejected run e few = (s, refl, sym (append-nil s.messages.buffer))
  processor_running (bot ∷ bots) s rejected run e few =
      let m = order 1 (an_object bot) in
      let (t, same, gained) =
        processor_running bots (queued c m s) rejected run e (unfold size in few) in
      (
        t,
        ap (λ v. after v (processor bots)) (admit_running bot s rejected run e few) ∙ same,
        gained ∙ append_assoc s.messages.buffer (m ∷ []) (adds bots),
      )
