-- ===== src/Bcp/Tests.antt =====
-- The theorems about the control programs, over whole numbers in place of floats. All azimuths are zero.
use nrtb_redo.Common.{
  ◌≡◌, ◌≢◌, ◌<◌, ◌^◌, ℕ, refl, true, false, List, [], ◌∷◌, ◌++◌, some, arith, length,
}
use nrtb_redo.Common.Bytes.{Bytes, codes, Lacks}
use nrtb_redo.Common.Int.{ℤ, pos}
use nrtb_redo.Floats.{Floats, int_floats}
use nrtb_redo.Object.{EffectorClass}
use nrtb_redo.Object.Whole.{ball}
use nrtb_redo.Queue
use nrtb_redo.Common.Decimal.{read_int}
use nrtb_redo.Rotatable
use nrtb_redo.Triad
use nrtb_redo.Triad.Text.RoundTrip.{AllRead}
use nrtb_redo.Triad.{triad}
use nrtb_redo.Triad.Text.Whole.{whole_text, whole_text-IsWriting, whole_text-Reads}
use nrtb_redo.Sim.{Contact}
use nrtb_redo.Radar.{Radar, sight, get_contacts}
use nrtb_redo.Radar.Sightings.{sightings}
use nrtb_redo.Steer.Kit.{Kit, kit, steer_pre}
use nrtb_redo.Steer.{construct}
use nrtb_redo.Bot.{Bot, lvar, done}
use nrtb_redo.Socket.{not_open_exception, timeout_exception}
use nrtb_redo.Bcp.{BotState, load, target_of, ComHandler, get, worker, handler, origin}
use nrtb_redo.Bcp.Lvar.{
  printing_of, state_of, rounded_state, seen_first, FirstRead, load-lvar, target_of-get_contacts,
}
use nrtb_redo.Bcp.Worker.{
  Event, line, late, broken, rounds_of, lines_of, emptied, HasGained, worker_lem,
}
use nrtb_redo.Bcp.Target.{Settings, Pilot, again, set_out, fly}
use nrtb_redo.Bcp.Target.Course.{IsPiloting, IsOnCourse, flown, fly-IsOnCourse}
use nrtb_redo.Bcp.Kamikaze.{set_up, hunt, driven, IsFollowing, hunt-IsFollowing}

abbrev flat_floats : Floats ℤ
flat_floats = record int_floats { atan2 = λ a b. pos 0 }

abbrev bot : Bot ℤ (Kit ℤ)
bot = record {
  object = record {
    body = ball (pos 5) (pos 0) (pos 4);
    effectors = λ i. steer_pre (construct (pos 9) (pos 8) (pos 1));
    cmd_attribs = 1 ∷ [];
    pre_attribs = 1 ∷ [];
    post_attribs = [];
    dropped_attribs = [];
  };
  im_alive = true;
  to_bcp = Queue.empty;
  from_bcp = Queue.empty;
  auto_on = false;
  set_speed = pos 3;
  set_heading = pos 0;
  power_limit = pos 50;
  turn_limit = pos 10;
}

abbrev effectors : EffectorClass ℤ (Kit ℤ)
effectors = kit (λ a. codes "7") (λ s. pos 7)

abbrev place : ℕ → ℤ → BotState ℤ
place x azimuth = record {
  location = triad (pos x) azimuth (pos 0);
  velocity = origin;
  attitude = origin;
  rotation = origin;
}

whole_triad-AllRead :
    (x z : ℕ)
    → x < 2 ^ 31
    → z < 2 ^ 31
    → AllRead whole_text (λ a. a) (triad (pos x) (pos 0) (pos z))
whole_triad-AllRead x z small flat =
    (whole_text-Reads x small, whole_text-Reads 0 (omega arith), whole_text-Reads z flat)

load-lvar_example :
    (d : Bot ℤ (Kit ℤ)) × (text : Bytes) × (lvar (printing_of whole_text) bot ≡ done d)
    × (d.to_bcp.buffer ≡ bot.to_bcp.buffer ++ (text ∷ []))
    × (load whole_text text (place 9 (pos 9))
        ≡ rounded_state whole_text whole_text-IsWriting
            (λ a. a)
            (state_of whole_text whole_text-IsWriting (λ a. a) bot))
load-lvar_example =
    load-lvar whole_text whole_text-IsWriting (λ a. a) bot (place 9 (pos 9))
      (unfold Queue.empty in refl)
      (
        whole_triad-AllRead 5 0 (omega arith) (omega arith),
        whole_triad-AllRead 4 0 (omega arith) (omega arith),
        unfold Rotatable.angles in whole_triad-AllRead 0 0 (omega arith) (omega arith),
        unfold Rotatable.angles in whole_triad-AllRead 0 0 (omega arith) (omega arith),
      )

abbrev radar : Radar ℤ
radar = record {
  parent_id = pos 1;
  parent_location = triad (pos 0) (pos 0) (pos 0);
  parent_velocity = triad (pos 0) (pos 0) (pos 0);
  type_return_limit = pos 50;
  dist_return_limit = pos 100;
}

abbrev own : Contact ℤ
own = record {
  id = 1;
  type_ = 7;
  location = triad (pos 0) (pos 0) (pos 0);
  velocity = triad (pos 0) (pos 0) (pos 0);
  radius = pos 1;
}

abbrev contacts : List (Contact ℤ)
contacts = own ∷ record own { id = 2; location = triad (pos 6) (pos 0) (pos 0) } ∷ []

one_seen : length (sightings radar contacts) ≡ 1
unfolding sight Triad.to_polar Triad.range
one_seen = refl

one_seen-FirstRead : FirstRead whole_text whole_text-IsWriting (λ a. a) (sightings radar contacts)
unfolding sight Triad.to_polar Triad.range
one_seen-FirstRead = (
  whole_triad-AllRead 36 36 (omega arith) (omega arith),
  whole_triad-AllRead 0 0 (omega arith) (omega arith),
)

target_of-get_contacts_example :
    target_of whole_text (get_contacts whole_text radar contacts)
    ≡ some (seen_first whole_text whole_text-IsWriting (λ a. a) (sightings radar contacts))
target_of-get_contacts_example =
    target_of-get_contacts whole_text whole_text-IsWriting (λ a. a) radar contacts
      (omega (arith, one_seen)) one_seen-FirstRead

flat_floats-IsPiloting : IsPiloting ⦃n = flat_floats⦄ whole_text
flat_floats-IsPiloting = record {
  ten = unfold read_int in refl;
  hundred = unfold read_int in refl;
  nought_lt = refl;
  azimuth = λ a. unfold Triad.to_polar in refl;
}

abbrev conf : Settings ℤ
conf = record { center = origin; zone = pos 4; turnslop = pos 1 }

fly-IsOnCourse_example :
    (q : Pilot ℤ) × (fly ⦃n = flat_floats⦄ whole_text conf
        (place 9 (pos 0) ∷ place 9 (pos 0) ∷ [])
        (set_out ⦃n = flat_floats⦄ (pos 0))
      ≡ again q)
    × IsOnCourse ⦃n = flat_floats⦄ whole_text q
        (flown ⦃n = flat_floats⦄ whole_text effectors bot flat_floats-IsPiloting q)
fly-IsOnCourse_example =
    fly-IsOnCourse ⦃n = flat_floats⦄ whole_text effectors bot flat_floats-IsPiloting conf (pos 0)
      (place 9 (pos 0) ∷ place 9 (pos 0) ∷ [])

hunt-IsFollowing_example : IsFollowing whole_text effectors bot (place 9 (pos 2)) (
    driven whole_text effectors bot
      (hunt whole_text ((place 6 (pos 1) ∷ []) ++ (place 9 (pos 2) ∷ [])) set_up))
hunt-IsFollowing_example =
    hunt-IsFollowing whole_text effectors bot (place 6 (pos 1) ∷ []) (place 9 (pos 2)) refl

abbrev thread_state : ComHandler
thread_state = record { inbound = Queue.empty; active = true }

not_late : not_open_exception ≢ timeout_exception
not_late e = cc

-- A line, a timeout, a line, and the end of the connection.
abbrev events : List Event
events =
    line (codes "go") ∷ late [] ∷ line (codes "up") ∷ broken not_open_exception not_late [] ∷ []

go-Lacks : Lacks b'\r' (codes "go")
go-Lacks = ((λ e. ground (arith, e)), ((λ e. ground (arith, e)), tt))

up-Lacks : Lacks b'\r' (codes "up")
up-Lacks = ((λ e. ground (arith, e)), ((λ e. ground (arith, e)), tt))

worker_lem_example :
    HasGained thread_state (lines_of events) (worker true (rounds_of events) thread_state)
    × ((k : ℕ)
        → get (emptied k (handler (worker true (rounds_of events) thread_state))) ≡ Queue.waits)
worker_lem_example =
    worker_lem events thread_state (go-Lacks, (up-Lacks, tt)) (unfold Queue.empty in refl)
