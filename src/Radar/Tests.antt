-- ===== src/Radar/Tests.antt =====
-- The theorem about the contacts of a radar, over whole numbers in place of floats.
use nrtb_redo.Common.{◌≡◌, [], ◌∷◌, ◌++◌, List, length, arith}
use nrtb_redo.Common.Bytes.{codes}
use nrtb_redo.Common.Decimal.{show_nat}
use nrtb_redo.Common.Int.{ℤ, pos}
use nrtb_redo.Floats.{int_floats}
use nrtb_redo.Triad.{triad}
use nrtb_redo.Triad.Text.Whole.{whole_text}
use nrtb_redo.Sim.{Contact}
use nrtb_redo.Object.{Body}
use nrtb_redo.Object.Whole.{ball}
use nrtb_redo.Radar.{Radar, Sighting, tick, get_contacts}
use nrtb_redo.Radar.Sightings.{Reported, show_all, get_contacts_lem}

abbrev radar : Radar ℤ
radar = record {
  parent_id = pos 1;
  parent_location = triad (pos 0) (pos 0) (pos 0);
  parent_velocity = triad (pos 1) (pos 0) (pos 0);
  type_return_limit = pos 50;
  dist_return_limit = pos 100;
}

abbrev bot : Body ℤ
bot = ball (pos 0) (pos 0) (pos 1)

abbrev contact : ℤ → Contact ℤ
contact x = record {
  id = 2;
  type_ = 7;
  location = triad x (pos 0) (pos 0);
  velocity = triad (pos 0) (pos 3) (pos 0);
  radius = pos 1;
}

abbrev own : Contact ℤ
own = record (contact (pos 0)) { id = 1 }

abbrev contacts : List (Contact ℤ)
contacts = contact (pos 6) ∷ own ∷ contact (pos 9) ∷ []

get_contacts_lem_example :
    (ss : List (Sighting ℤ)) × (get_contacts whole_text (tick radar bot).1 contacts
      ≡ codes "radar contacts "
        ++ (show_nat (length ss) ++ show_all (tick radar bot).1 whole_text ss))
    × Reported (tick radar bot).1 1 contacts ss
get_contacts_lem_example = get_contacts_lem whole_text radar bot contacts (omega arith)
