-- ===== src/Bcp/Lvar.antt =====
-- What a control program reads from the answers of its bot: the bot writes its own state, and its radar
-- the contacts.
use mathlib.Core.List.{cons-ne-nil}
use nrtb_redo.Common.{
  ℕ, suc, ◌<◌, ◌^◌, ◌≡◌, ◌≢◌, refl, sym, ap, ◌∙◌, true, false, List, [], ◌∷◌, ◌++◌, some, length,
  append-nil, arith,
}
use nrtb_redo.Common.Bytes.{Bytes, codes}
use nrtb_redo.Common.Int
use nrtb_redo.Common.Int.{ℤ, pos}
use nrtb_redo.Common.Decimal.{
  show_nat, read_int, is_digit, AllDigits, show_nat-AllDigits, show_nat-ne-nil, read_int-show_nat,
}
use nrtb_redo.Common.Stream.{is_space, skip_spaces, read_word, next_word}
use nrtb_redo.Common.Stream.Reading.{
  AllSolid, IsBreak, skip_spaces_solid, next_word-append, next_word-space,
}
use nrtb_redo.Floats.{Floats}
use nrtb_redo.Queue
use nrtb_redo.Rotatable
use nrtb_redo.Triad.{Triad}
use nrtb_redo.Triad.Text.{FloatText, six, show_triad, read_float, read_triad}
use nrtb_redo.Triad.Text.RoundTrip.{
  IsWriting, AllRead, rounded_triad, read_triad-show_triad, read_triad-space,
}
use nrtb_redo.Sim.{Contact}
use nrtb_redo.Radar.{Radar, Sighting, show_sighting, get_contacts}
use nrtb_redo.Radar.Sightings.{sightings, show_all, get_contacts-sightings}
use nrtb_redo.Bot.{Bot, done, Printing, lvar, send_to_bcp}
use nrtb_redo.Bcp.{
  BotState, new_state, load, first_contact, no_contact, counted, count_from, target_of,
}

-- The streams of the bot.
abbrev pub printing_of : {F : Type 0} ⦃n : Floats F⦄ → FloatText F → Printing F
printing_of t = record {
  show = t.show six;
  show_triad = show_triad t six;
  read_into = λ s old. (read_float t old (some s)).0;
}

module _ {F : Type 0} ⦃n : Floats F⦄ (t : FloatText F) (w : IsWriting t) (rounded : F → F) where
  read_next :
      (old a : Triad F) (rest : Bytes)
      → AllRead t rounded a
      → IsBreak rest
      → read_triad t old (b' ' ∷ (show_triad t six a ++ rest)) ≡ (rounded_triad t rounded a, rest)
  read_next old a rest r b =
      read_triad-space t w rounded old (show_triad t six a ++ rest)
      ∙ read_triad-show_triad t w rounded old a rest r b

  abbrev pub AllReadState : BotState F → Type 0
  AllReadState b =
      AllRead t rounded b.location
      × AllRead t rounded b.velocity
      × AllRead t rounded b.attitude
      × AllRead t rounded b.rotation

  abbrev pub rounded_state : BotState F → BotState F
  rounded_state b = record {
    location = rounded_triad t rounded b.location;
    velocity = rounded_triad t rounded b.velocity;
    attitude = rounded_triad t rounded b.attitude;
    rotation = rounded_triad t rounded b.rotation;
  }

  abbrev pub state_text : BotState F → Bytes
  state_text b =
      codes "bot lvar "
      ++ (show_triad t six b.location
          ++ (codes " "
              ++ (show_triad t six b.velocity
                  ++ (codes " "
                      ++ (show_triad t six b.attitude
                          ++ (codes " " ++ show_triad t six b.rotation))))))

  abbrev pub state_of : {E : Type 0} → Bot F E → BotState F
  state_of b = record {
    location = b.object.body.location;
    velocity = b.object.body.velocity;
    attitude = Rotatable.angles b.object.body.attitude;
    rotation = Rotatable.angles b.object.body.rotation;
  }

  after_lvar : (s : Bytes) → (next_word (next_word (codes "bot lvar " ++ s)).1).1 ≡ b' ' ∷ s
  unfolding next_word skip_spaces read_word
  after_lvar s = refl

  pub load-state_text :
      (b old : BotState F) → AllReadState b → load t (state_text b) old ≡ rounded_state b
  unfolding load
  load-state_text b old (rl, rv, ra, rr) =
      let last = show_triad t six b.rotation in
      let s5 = codes " " ++ last in
      let s4 = codes " " ++ (show_triad t six b.attitude ++ s5) in
      let s3 = codes " " ++ (show_triad t six b.velocity ++ s4) in
      rw
        (
          after_lvar (show_triad t six b.location ++ s3),
          read_next old.location b.location s3 rl refl,
          read_next old.velocity b.velocity s4 rv refl,
          read_next old.attitude b.attitude s5 ra refl,
          sym (append-nil last),
          read_next old.rotation b.rotation [] rr tt,
        )
        refl

  -- What the control program reads from the answer to `bot lvar` is the state of its bot, each number
  -- as it comes through the text: the bot queues one message for it, and loading that message gives
  -- the four vectors, whatever the variable held before.
  pub load-lvar :
      {E : Type 0} (b : Bot F E) (old : BotState F)
      → b.to_bcp.ready ≡ true
      → AllReadState (state_of b)
      → (d : Bot F E) × (text : Bytes) × (lvar (printing_of t) b ≡ done d)
        × (d.to_bcp.buffer ≡ b.to_bcp.buffer ++ (text ∷ []))
        × (load t text old ≡ rounded_state (state_of b))
  unfolding lvar send_to_bcp Queue.push Queue.store Queue.count_in
  load-lvar b old e r = (
    record b { to_bcp = Queue.store (state_text (state_of b)) (Queue.count_in b.to_bcp) },
    state_text (state_of b),
    rw e refl,
    refl,
    load-state_text (state_of b) old r,
  )

digits-AllSolid : (s : Bytes) → AllDigits s → AllSolid s
digits-AllSolid [] h = tt
digits-AllSolid (c ∷ s) (d, h) = (solid c d, digits-AllSolid s h)
  where
    solid : (c : ℕ) → is_digit c ≡ true → is_space c ≡ false
    solid c h = ground (arith, h)

show_nat-AllSolid : (k : ℕ) → AllSolid (show_nat k)
show_nat-AllSolid k = digits-AllSolid (show_nat k) (show_nat-AllDigits k)

after_contacts : (s : Bytes) → (next_word (next_word (codes "radar contacts " ++ s)).1).1 ≡ b' ' ∷ s
unfolding next_word skip_spaces read_word
after_contacts s = refl

skip_spaces-space : (s : Bytes) → skip_spaces (b' ' ∷ s) ≡ skip_spaces s
unfolding skip_spaces
skip_spaces-space s = refl

module _ {F : Type 0} ⦃n : Floats F⦄ (t : FloatText F) (w : IsWriting t) (rounded : F → F) where
  -- The first of the contacts, as far as a control program reads it.
  abbrev pub seen_first : List (Sighting F) → BotState F
  seen_first [] = no_contact t
  seen_first (s ∷ ss) = record new_state {
    location = rounded_triad t rounded s.offset;
    velocity = rounded_triad t rounded s.velocity;
  }

  abbrev pub FirstRead : List (Sighting F) → Type 0
  FirstRead [] = Unit
  FirstRead (s ∷ ss) = AllRead t rounded s.offset × AllRead t rounded s.velocity

  show_all-IsBreak : (r : Radar F) (ss : List (Sighting F)) → IsBreak (show_all r t ss)
  unfolding show_sighting
  show_all-IsBreak r [] = tt
  show_all-IsBreak r (s ∷ ss) = refl

  -- The text of a sighting with what follows it, bracketed to the right.
  abbrev sighting_text : Sighting F → Bytes → Bytes
  sighting_text s rest =
      b' '
      ∷ (show_nat s.type_
          ++ (b' ' ∷ (show_triad t six s.offset ++ (b' ' ∷ (show_triad t six s.velocity ++ rest)))))

  first_contact-shown :
      (s : Sighting F) (rest : Bytes)
      → IsBreak rest
      → FirstRead (s ∷ [])
      → first_contact t (sighting_text s rest) ≡ seen_first (s ∷ [])
  unfolding first_contact
  first_contact-shown s rest b (ro, rv) =
      let s6 = b' ' ∷ (show_triad t six s.velocity ++ rest) in
      let s5 = b' ' ∷ (show_triad t six s.offset ++ s6) in
      rw
        (
          next_word-space (show_nat s.type_ ++ s5),
          next_word-append (show_nat s.type_) s5 (show_nat-AllSolid s.type_)
              (show_nat-ne-nil s.type_) refl,
          read_next t w rounded _ s.offset s6 ro refl,
          read_next t w rounded _ s.velocity rest rv b,
        )
        refl

  count_from-some : (s : Bytes) → s ≢ [] → count_from t s ≡ some (read_int s)
  count_from-some [] h = absurd (h refl)
  count_from-some (c ∷ s) h = refl

  append-ne-nil : (s u : Bytes) → s ≢ [] → s ++ u ≢ []
  append-ne-nil [] u h = absurd (h refl)
  append-ne-nil (c ∷ s) u h = cons-ne-nil c (s ++ u)

  count_read :
      (k : ℕ) (s : Bytes)
      → count_from t (skip_spaces (b' ' ∷ (show_nat k ++ s))) ≡ some (read_int (show_nat k ++ s))
  count_read k s =
      ap (count_from t) (
        skip_spaces-space (show_nat k ++ s)
        ∙ skip_spaces_solid (show_nat k) s (show_nat-AllSolid k) (show_nat-ne-nil k))
      ∙ count_from-some (show_nat k ++ s) (append-ne-nil (show_nat k) s (show_nat-ne-nil k))

  target_of-shown :
      (r : Radar F) (ss : List (Sighting F))
      → length ss < 2 ^ 31
      → FirstRead ss
      → target_of t (codes "radar contacts " ++ (show_nat (length ss) ++ show_all r t ss))
        ≡ some (seen_first ss)
  unfolding target_of
  target_of-shown r [] small first =
      ap (λ s. counted t (count_from t (skip_spaces s))) (after_contacts (show_nat 0 ++ []))
      ∙ ap (counted t) (count_read 0 [])
      ∙ unfold show_nat read_int in refl
  target_of-shown r (s ∷ ss) small first =
      let rest = show_all r t ss in
      let k = suc (length ss) in
      let positive : Int.lt (pos 0) (pos k) ≡ true = ground arith in
      ap (λ s. counted t (count_from t (skip_spaces s)))
        (after_contacts (show_nat k ++ sighting_text s rest))
      ∙ ap (counted t) (
          count_read k (sighting_text s rest)
          ∙ ap some (
              read_int-show_nat k b' '
                (show_nat s.type_
                  ++ (b' '
                      ∷ (show_triad t six s.offset
                          ++ (b' ' ∷ (show_triad t six s.velocity ++ rest)))))
                small refl))
      ∙ rw positive (ap some (first_contact-shown s rest (show_all-IsBreak r ss) first))

  -- What the control program takes for its target is the first sighting of the radar, each number as
  -- it comes through the text, and the mark for no target when there is no sighting; the count is read
  -- as it was written, for fewer than 2 ^ 31 of them.
  pub target_of-get_contacts :
      (r : Radar F) (cs : List (Contact F))
      → length (sightings r cs) < 2 ^ 31
      → FirstRead (sightings r cs)
      → target_of t (get_contacts t r cs) ≡ some (seen_first (sightings r cs))
  target_of-get_contacts r cs small first =
      ap (target_of t) (get_contacts-sightings r t cs)
      ∙ target_of-shown r (sightings r cs) small first
