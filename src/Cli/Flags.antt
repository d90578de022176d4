-- ===== src/Cli/Flags.antt =====
-- cmd/straggler/cmd/utils.go: the flags of a struct of options, by the tags of its fields.
pub mod Laws
pub mod Service
use straggler.Base.{List, [], ◌∷◌, String, Option, none, some, Bool, ◌==◌, string_eq, if◌then◌else◌}
use straggler.Base.Int.{ℤ}
use straggler.Base.Result.{Result, ok, err, panic}
use straggler.Base.State.{M, ◌>>=◌, ◌>>◌, pure, ignore_error}

-- The value of a flag, with the type that the flag is registered for.
pub data FlagValue : Type 0 where
  string : String → FlagValue
  int : ℤ → FlagValue
  bool : Bool → FlagValue
  duration : ℤ → FlagValue
  string_slice : List String → FlagValue

-- The tags of a field; a tag that is missing is empty.
pub record Tag : Type 0 where
  pub cli_arg_name : String
  pub cli_arg_description : String
  pub cli_arg_group : String

-- What reflection shows of a struct: its fields with their tags, in order, each a struct again, or a
-- value or a pointer, which may be nil, of one of the types of flags, or of another type.
mutual
  pub data Value : Type 0 where
    struct : Fields → Value
    value : FlagValue → Value
    pointer : Option FlagValue → Value
    other : String → Value

  pub data Fields : Type 0 where
    no_fields : Fields
    field : Tag → Value → Fields → Fields

-- The calls of pflag: a variable is added under a name, with its default and its usage, and a name is
-- put into a group.
pub record FlagSet (S : Type 0) : Type 0 where
  pub var : String → FlagValue → String → M S (Unit {0})
  pub set_group : String → String → M S (Unit {0})

module _ {S : Type 0} (flag_set : FlagSet S) where
  -- A case of the switch, and the group.
  unfoldable pub add_var : Tag → FlagValue → M S (Unit {0})
  add_var tag v = do
    flag_set.var tag.cli_arg_name v tag.cli_arg_description
    ignore_error (flag_set.set_group tag.cli_arg_name tag.cli_arg_group)

  -- A pointer that is nil, and one to a slice, of which the switch has no case.
  unfoldable pub add_pointer : Tag → Option FlagValue → M S (Unit {0})
  unfolding add_var
  add_pointer tag none s = (panic, s)
  add_pointer tag (some (string_slice v)) s = (panic, s)
  add_pointer tag (some (string v)) s = add_var tag (string v) s
  add_pointer tag (some (int v)) s = add_var tag (int v) s
  add_pointer tag (some (bool v)) s = add_var tag (bool v) s
  add_pointer tag (some (duration v)) s = add_var tag (duration v) s

  -- A struct is entered whatever its tags, and another field without a name is skipped.
  unfoldable pub do_add_command_flags : Fields → M S (Unit {0})
  unfolding add_var add_pointer
  do_add_command_flags no_fields = pure tt
  do_add_command_flags (field tag (struct fields) rest) =
      do_add_command_flags fields >> do_add_command_flags rest
  do_add_command_flags (field tag (value v) rest) =
      (if tag.cli_arg_name == "" then pure tt else add_var tag v) >> do_add_command_flags rest
  do_add_command_flags (field tag (pointer v) rest) =
      (if tag.cli_arg_name == "" then pure tt else add_pointer tag v) >> do_add_command_flags rest
  do_add_command_flags (field tag (other kind) rest) =
      (if tag.cli_arg_name == "" then pure tt else λ s. (panic, s)) >> do_add_command_flags rest
