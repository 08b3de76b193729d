-- ===== src/Radar.antt =====
-- cpp/sim_engine/radar/radar_mk1.h and radar_mk1.cpp: the radar of a bot. The contacts are those that
-- `sim_core::contact_list` gives, and floats are written by the parameter `t`.
pub mod Sightings
mod Tests
use nrtb_redo.Common.{
  ℕ, suc, ◌+◌, ◌-◌, ◌%◌, ◌^◌, ltb, Bool, true, false, List, [], ◌∷◌, ◌++◌, if◌then◌else◌, ◌==◌,
}
use nrtb_redo.Common.Bytes.{Bytes, codes, same_bytes}
use nrtb_redo.Common.Int
use nrtb_redo.Common.Int.{ℤ, pos, negsuc}
use nrtb_redo.Common.Words.{u32_mod, u64_mod}
use nrtb_redo.Common.Decimal.{show_nat}
use nrtb_redo.Common.Stream.{next_word}
use nrtb_redo.Floats.{Floats}
use nrtb_redo.Triad.{Triad, triad}
use nrtb_redo.Triad
use nrtb_redo.Triad.Text.{FloatText, six, show_triad}
use nrtb_redo.Object.{Body}
use nrtb_redo.Sim.{Contact}

pub record Radar (F : Type 0) : Type 0 where
  pub parent_id : ℤ
  pub parent_location : Triad F
  pub parent_velocity : Triad F
  pub type_return_limit : F
  pub dist_return_limit : F

-- An `unsigned long long` as an `int` of 32 bits, and an `int` as an `unsigned long long`.
abbrev pub to_int : ℕ → ℤ
to_int k =
    let low = k % u32_mod in if ltb low (2 ^ 31) then pos low else Int.minus (pos low) (pos u32_mod)

abbrev pub to_unsigned : ℤ → ℕ
to_unsigned (pos k) = k
to_unsigned (negsuc k) = u64_mod - suc k

-- What one contact looks like: its type, range and angles, and relative velocity.
pub record Sighting (F : Type 0) : Type 0 where
  pub type_ : ℕ
  pub offset : Triad F
  pub velocity : Triad F

module _ {F : Type 0} ⦃n : Floats F⦄ where
  open n use {nought, one, decimal, plus, minus, times, floor, lt}

  -- The limits come from the configuration; the other members have no value before the first tick.
  unfoldable pub construct : (Bytes → F → F) → ℤ → Triad F → Triad F → Radar F
  construct conf_get junk_id junk_location junk_velocity = record {
    parent_id = junk_id;
    parent_location = junk_location;
    parent_velocity = junk_velocity;
    type_return_limit = conf_get (codes "radar_tr") (decimal 10000 0);
    dist_return_limit = conf_get (codes "radar_dr") (decimal 10000 0);
  }

  unfoldable pub tick : Radar F → Body F → Bool × Radar F
  tick r o = (
    false,
    record r {
      parent_id = to_int o.id;
      parent_location = o.location;
      parent_velocity = o.velocity;
    },
  )

  -- `parent_id` in the comparison with an id.
  abbrev pub own_id : Radar F → ℕ
  own_id r = to_unsigned r.parent_id

  abbrev half : F
  half = decimal 5 1

  -- The range is blurred, and the velocity is hidden, behind the limit.
  unfoldable pub blur : Radar F → Triad F → Triad F
  blur r offset =
      let adjustment = minus offset.x r.dist_return_limit in
      let scale = minus (minus adjustment (times (floor adjustment) one)) half in
      record offset { x = plus offset.x (times adjustment scale) }

  abbrev pub is_far : Radar F → Triad F → Bool
  is_far r offset = lt r.dist_return_limit offset.x

  -- What the loop makes of a contact, up to the test of its range.
  unfoldable pub sight : Radar F → Contact F → Sighting F
  unfolding blur
  sight r c =
      let offset = Triad.to_polar (Triad.sub c.location r.parent_location) in
      let far = is_far r offset in
      let seen = if far then blur r offset else offset in
      let velocity = if far then r.parent_velocity else c.velocity in
      record {
        type_ = if lt r.type_return_limit seen.x then 0 else c.type_;
        offset = seen;
        velocity = Triad.sub velocity r.parent_velocity;
      }

  abbrev pub in_range : Radar F → Sighting F → Bool
  in_range r s = lt s.offset.x (times r.dist_return_limit (decimal 5 0))

  module _ (t : FloatText F) where
    unfoldable pub show_sighting : Sighting F → Bytes
    unfolding show_triad
    show_sighting s =
        codes " "
        ++ (show_nat s.type_
            ++ (codes " "
                ++ (show_triad t six s.offset ++ (codes " " ++ show_triad t six s.velocity))))

    -- One round of the loop: the counter and the text.
    unfoldable pub look : Radar F → Contact F → ℕ × Bytes → ℕ × Bytes
    unfolding sight show_sighting
    look r c (counter, results) =
        if c.id == own_id r
        then (counter, results)
        else if in_range r (sight r c)
        then (counter + 1, results ++ show_sighting (sight r c))
        else (counter, results)

    unfoldable pub look_loop : Radar F → List (Contact F) → ℕ × Bytes → ℕ × Bytes
    unfolding look
    look_loop r [] found = found
    look_loop r (c ∷ cs) found = look_loop r cs (look r c found)

    abbrev pub announced : ℕ × Bytes → Bytes
    announced (counter, results) = codes "radar contacts " ++ (show_nat counter ++ results)

    unfoldable pub get_contacts : Radar F → List (Contact F) → Bytes
    unfolding look_loop
    get_contacts r [] = codes "radar contacts " ++ show_nat 0
    get_contacts r (c ∷ cs) = announced (look_loop r (c ∷ cs) (0, []))

    unfoldable pub status : Bytes
    status = codes "radar status 1"

    unfoldable pub radar_verb : Radar F → List (Contact F) → Bytes → Bytes → Bytes
    unfolding get_contacts status
    radar_verb r cs cmd verb =
        if same_bytes verb (codes "contacts")
        then get_contacts r cs
        else if same_bytes verb (codes "status")
        then status
        else codes "bad cmd \"" ++ (cmd ++ codes "\"")

    -- The result, and the response.
    unfoldable pub command : Radar F → List (Contact F) → Bytes → Bool × Bytes
    unfolding radar_verb next_word
    command r cs cmd =
        let (module_name, tokens) = next_word cmd in
        let (verb, rest) = next_word tokens in
        if same_bytes module_name (codes "radar")
        then (true, radar_verb r cs cmd verb)
        else (false, [])
