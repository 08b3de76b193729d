-- ===== src/Steer/Exclusive.antt =====
-- What every sequence of commands keeps of the settings of the drive.
use nrtb_redo.Common.{
  ◌≡◌, Bool, true, false, List, [], ◌∷◌, if◌then◌else◌, ◌⊎◌, inl, inr, Bool-cases,
}
use nrtb_redo.Common.Bytes.{Bytes, codes, same_bytes}
use nrtb_redo.Common.Stream.{next_word}
use nrtb_redo.Text.Gsub.{is_nil}
use nrtb_redo.Floats.{Floats}
use nrtb_redo.Steer.{
  Pre, hundred, construct, lockdown, drive, brake, turn, obey, drive_cmd, command,
}

-- A hundredth of a percentage is a fraction, and zero stays zero.
pub record IsPercent (F : Type 0) ⦃n : Floats F⦄ : Type 0 where
  pub over_zero : (a : F) → n.eq a n.nought ≡ true → n.eq (n.over a hundred) n.nought ≡ true
  pub over_absolute :
      (a : F)
      → n.le (n.absolute a) hundred ≡ true
      → n.le (n.absolute (n.over a hundred)) n.one ≡ true
  pub over_le : (a : F) → n.le a hundred ≡ true → n.le (n.over a hundred) n.one ≡ true
  pub over_ge : (a : F) → n.le n.nought a ≡ true → n.le n.nought (n.over a hundred) ≡ true
  pub zero_eq : n.eq n.nought n.nought ≡ true
  pub zero_absolute : n.le (n.absolute n.nought) n.one ≡ true
  pub one_le : n.le n.one n.one ≡ true
  pub zero_le : n.le n.nought n.one ≡ true
  pub zero_le_zero : n.le n.nought n.nought ≡ true

module _ {F : Type 0} ⦃n : Floats F⦄ where
  -- No thrust against the brake, and every setting is a fraction.
  pub record IsSafe (e : Pre F) : Type 0 where
    pub exclusive : (n.eq e.set_p n.nought ≡ true) ⊎ (n.eq e.set_b n.nought ≡ true)
    pub thrust : n.le (n.absolute e.set_p) n.one ≡ true
    pub braking : (n.le n.nought e.set_b ≡ true) × (n.le e.set_b n.one ≡ true)
    pub turning : n.le (n.absolute e.set_t) n.one ≡ true

  abbrev pub run : (F → Bytes) → (Bytes → F) → List Bytes → Pre F → Pre F
  run show read_val [] e = e
  run show read_val (cmd ∷ cmds) e = run show read_val cmds (command show read_val cmd e).2

  module _ (laws : IsPercent F) where
    lockdown-IsSafe : (e : Pre F) → IsSafe (lockdown e)
    unfolding lockdown
    lockdown-IsSafe e = record {
      exclusive = inl laws.zero_eq;
      thrust = laws.zero_absolute;
      braking = (laws.zero_le, laws.one_le);
      turning = laws.zero_absolute;
    }

    drive-IsSafe : (rate : F) (e : Pre F) → IsSafe e → IsSafe (drive rate e)
    unfolding drive
    drive-IsSafe rate e s = elim (Bool-cases (n.le (n.absolute rate) hundred)) [
      | inr high ↦ rw high (lockdown-IsSafe e)
      | inl low ↦ elim (Bool-cases (n.eq rate n.nought)) [
        | inl zero ↦
            rw (low, zero)
              record {
                exclusive = inl (laws.over_zero rate zero);
                thrust = laws.over_absolute rate low;
                braking = s.braking;
                turning = s.turning;
              }
        | inr some_power ↦
            rw (low, some_power)
              record {
                exclusive = inr laws.zero_eq;
                thrust = laws.over_absolute rate low;
                braking = (laws.zero_le_zero, laws.zero_le);
                turning = s.turning;
              }
      ]
    ]

    brake-IsSafe : (b : F) (e : Pre F) → IsSafe e → IsSafe (brake b e)
    unfolding brake
    brake-IsSafe b e s = elim (Bool-cases (n.le n.nought b)) [
      | inr below ↦ rw below (lockdown-IsSafe e)
      | inl above ↦ elim (Bool-cases (n.le b hundred)) [
        | inr high ↦ rw (above, high) (lockdown-IsSafe e)
        | inl low ↦ elim (Bool-cases (n.eq b n.nought)) [
          | inl zero ↦
              rw (above, low, zero)
                record {
                  exclusive = inr (laws.over_zero b zero);
                  thrust = s.thrust;
                  braking = (laws.over_ge b above, laws.over_le b low);
                  turning = s.turning;
                }
          | inr some_brake ↦
              rw (above, low, some_brake)
                record {
                  exclusive = inl laws.zero_eq;
                  thrust = laws.zero_absolute;
                  braking = (laws.over_ge b above, laws.over_le b low);
                  turning = s.turning;
                }
        ]
      ]
    ]

    turn-IsSafe : (rate : F) (e : Pre F) → IsSafe e → IsSafe (turn rate e)
    unfolding turn
    turn-IsSafe rate e s = elim (Bool-cases (n.le (n.absolute rate) hundred)) [
      | inr high ↦ rw high (lockdown-IsSafe e)
      | inl low ↦ rw low record {
        exclusive = s.exclusive;
        thrust = s.thrust;
        braking = s.braking;
        turning = laws.over_absolute rate low;
      }
    ]

    -- A test picks one of two that are both safe.
    either_way : (b : Bool) (e f : Pre F) → IsSafe e → IsSafe f → IsSafe (if b then e else f)
    either_way true e f s t = s
    either_way false e f s t = t

    obey-IsSafe :
        (read_val : Bytes → F) (verb rest : Bytes) (e : Pre F)
        → IsSafe e
        → IsSafe (obey read_val verb rest e)
    unfolding obey
    obey-IsSafe read_val verb rest e s =
        either_way (same_bytes verb (codes "power")) (drive (read_val rest) e)
          (if same_bytes verb (codes "brake")
            then brake (read_val rest) e
            else if same_bytes verb (codes "turn")
            then turn (read_val rest) e
            else e)
          (drive-IsSafe (read_val rest) e s)
          (either_way (same_bytes verb (codes "brake")) (brake (read_val rest) e)
            (if same_bytes verb (codes "turn") then turn (read_val rest) e else e)
            (brake-IsSafe (read_val rest) e s)
            (either_way (same_bytes verb (codes "turn")) (turn (read_val rest) e) e
              (turn-IsSafe (read_val rest) e s) s))

    drive_cmd-IsSafe :
        (show : F → Bytes) (read_val : Bytes → F) (cmd verb rest : Bytes) (e : Pre F)
        → IsSafe e
        → IsSafe (drive_cmd show read_val cmd verb rest e).1
    unfolding drive_cmd
    drive_cmd-IsSafe show read_val cmd verb rest e s =
        elim (Bool-cases (same_bytes verb (codes "status"))) [
          | inl b ↦ rw b s
          | inr b ↦ elim (Bool-cases (is_nil rest)) [
            | inl d ↦ rw (b, d) (lockdown-IsSafe e)
            | inr d ↦ rw (b, d) (obey-IsSafe read_val verb rest e s)
          ]
        ]

    command-IsSafe :
        (show : F → Bytes) (read_val : Bytes → F) (cmd : Bytes) (e : Pre F)
        → IsSafe e
        → IsSafe (command show read_val cmd e).2
    unfolding command
    command-IsSafe show read_val cmd e s =
        let sys = next_word cmd in
        let verb = next_word sys.1 in
        elim (Bool-cases (same_bytes sys.0 (codes "drive"))) [
          | inl b ↦ rw b (drive_cmd-IsSafe show read_val cmd verb.0 verb.1 e s)
          | inr b ↦ rw b s
        ]

    run-IsSafe-from :
        (show : F → Bytes) (read_val : Bytes → F) (cmds : List Bytes) (e : Pre F)
        → IsSafe e
        → IsSafe (run show read_val cmds e)
    run-IsSafe-from show read_val [] e s = s
    run-IsSafe-from show read_val (cmd ∷ cmds) e s =
        run-IsSafe-from show read_val cmds (command show read_val cmd e).2
          (command-IsSafe show read_val cmd e s)

    -- From the construction on, whatever texts arrive as commands and whatever numbers are read from
    -- them: the drive never pushes against its own brake, the brake is between 0 and 1, and thrust and
    -- turn rate are between -1 and 1.
    pub run-IsSafe :
        (show : F → Bytes) (read_val : Bytes → F) (cmds : List Bytes) (mp mb mt : F)
        → IsSafe (run show read_val cmds (construct mp mb mt))
    unfolding construct
    run-IsSafe show read_val cmds mp mb mt =
        run-IsSafe-from show read_val cmds (construct mp mb mt) record {
          exclusive = inl laws.zero_eq;
          thrust = laws.zero_absolute;
          braking = (laws.zero_le, laws.one_le);
          turning = laws.zero_absolute;
        }
