-- ===== src/Config/Args.antt =====
-- `conf_reader::read` of the command line. The results of the two calls of `trim` are thrown away.
use nrtb_redo.Common.{ℕ, false, List, [], ◌∷◌, ◌++◌, Option, none, some, if◌then◌else◌}
use nrtb_redo.Common.Bytes.{Bytes, codes, same_bytes}
use nrtb_redo.Text.Split.{split, join}
use nrtb_redo.Config.{Values, Config, insert_value, exists, clear}
use nrtb_redo.Config.File.{read}

abbrev pub equal_sign : ℕ
equal_sign = b'='

-- What one argument is split into, the value put together again from the parts behind the name; the empty argument gives nothing.
unfoldable pub arg_pair : Bytes → Option (Bytes × Bytes)
unfolding split
arg_pair instring = elim (split instring equal_sign) [
  | [] ↦ none
  | name ∷ parts ↦ some (name, join equal_sign parts)
]

abbrev config_file : Bytes
config_file = codes "configfile"

-- `cvars` and `filename`
abbrev pub Args : Type 0
Args = Values × Bytes

unfoldable pub take_arg : Bytes → Args → Args
unfolding arg_pair insert_value
take_arg instring (cvars, filename) = elim (arg_pair instring) [
  | none ↦ (cvars, filename)
  | some (name, value) ↦
      (insert_value name value cvars, if same_bytes name config_file then value else filename)
]

unfoldable pub take_args : List Bytes → Args → Args
unfolding take_arg
take_args [] got = got
take_args (arg ∷ args) got = take_args args (take_arg arg got)

abbrev pub named_exec : List Bytes → List Bytes
named_exec [] = []
named_exec (exec ∷ args) = (codes "__exec_name=" ++ exec) ∷ args

-- `here->second = c->second` on the first entry of the name
unfoldable pub set_first : Bytes → Bytes → Values → Values
set_first k v [] = []
set_first k v ((j, w) ∷ rest) =
    if same_bytes j k then (j, v) ∷ rest else (j, w) ∷ set_first k v rest

unfoldable pub override_one : Bytes → Bytes → Values → Values
unfolding exists set_first insert_value
override_one k v vs = if exists k vs then set_first k v vs else insert_value k v vs

unfoldable pub override : Values → Values → Values
unfolding override_one
override [] vs = vs
override ((k, v) ∷ cvars) vs = override cvars (override_one k v vs)

module _ (fs : Bytes → Option Bytes) where
  unfoldable pub read_args : ℕ → List Bytes → Bytes → Config → Option Config
  unfolding take_args override read clear
  read_args depth argv filename c =
      let got : Args = take_args (named_exec argv) ([], filename) in
      elim (read fs depth got.1 false (record (clear c) { filename = got.1 })) [
        | none ↦ none
        | some d ↦ some (record d { values = override got.0 d.values })
      ]
