-- ===== src/Cli/Flags/Laws.antt =====
-- The flags of nested structs are those of the fields in them, in order.
use mathlib.Core.Path.{fun_ext}
use straggler.Base.{
  ◌≡◌, ◌∙◌, refl, ap, sym, List, [], ◌∷◌, ◌++◌, Option, none, some, Bool, not, filter_by,
  filter_by-append, ◌==◌, string_eq, if◌then◌else◌, Bool-cases, inl, inr,
}
use straggler.Base.Result.{Result, ok, err, panic}
use straggler.Base.State.{M, continue, ◌>>◌, pure}
use straggler.Cli.Flags.{
  FlagValue, Tag, Value, Fields, FlagSet, string, int, bool, duration, string_slice, struct, value,
  pointer, other, no_fields, field, add_var, add_pointer, do_add_command_flags,
}

-- The fields that are no structs, in the order in which reflection finds them.
abbrev pub leaves : Fields → List (Tag × Value)
leaves no_fields = []
leaves (field tag (struct inner) rest) = leaves inner ++ leaves rest
leaves (field tag (value v) rest) = (tag, value v) ∷ leaves rest
leaves (field tag (pointer v) rest) = (tag, pointer v) ∷ leaves rest
leaves (field tag (other kind) rest) = (tag, other kind) ∷ leaves rest

-- The flag of a field that is no struct: the switch has a case for its type, and a pointer is not nil.
abbrev pub flag_value : Value → Option FlagValue
flag_value (value v) = some v
flag_value (pointer (some (string_slice v))) = none
flag_value (pointer o) = o
flag_value (struct inner) = none
flag_value (other kind) = none

abbrev pub is_named : Tag × Value → Bool
is_named (tag, v) = not (tag.cli_arg_name == "")

module _ {S : Type 0} (flag_set : FlagSet S) where
  -- One field, and a loop over a list of them.
  abbrev pub add_flag : Tag → Option FlagValue → M S (Unit {0})
  add_flag tag none s = (panic, s)
  add_flag tag (some v) s = add_var flag_set tag v s

  abbrev pub add_flags : List (Tag × Value) → M S (Unit {0})
  add_flags [] = pure tt
  add_flags ((tag, v) ∷ rest) = add_flag tag (flag_value v) >> add_flags rest

  continue_assoc :
      (r : Result (Unit {0}) × S) (m n : M S (Unit {0}))
      → continue (continue r (λ _. m)) (λ _. n) ≡ continue r (λ _. m >> n)
  continue_assoc (ok tt, s) m n = refl
  continue_assoc (err e, s) m n = refl
  continue_assoc (panic, s) m n = refl

  add_flags-append :
      (xs ys : List (Tag × Value)) → add_flags (xs ++ ys) ≡ (add_flags xs >> add_flags ys)
  add_flags-append [] ys = refl
  add_flags-append ((tag, v) ∷ xs) ys =
      ap (λ m. add_flag tag (flag_value v) >> m) (add_flags-append xs ys)
      ∙ fun_ext
          (λ s. sym (continue_assoc (add_flag tag (flag_value v) s) (add_flags xs) (add_flags ys)))

  -- A field that is no struct, before the flags of the others.
  leaf :
      (tag : Tag) (v : Value) (m rest : M S (Unit {0})) (later : List (Tag × Value))
      → m ≡ add_flag tag (flag_value v)
      → rest ≡ add_flags later
      → ((if tag.cli_arg_name == "" then pure tt else m) >> rest)
        ≡ add_flags (if is_named (tag, v) then (tag, v) ∷ later else later)
  leaf tag v m rest later same h = elim (Bool-cases (tag.cli_arg_name == "")) [
    | inl unnamed ↦ rw unnamed h
    | inr named ↦ rw named ((λ i. same i >> h i))
  ]

  pointer_flag :
      (tag : Tag) (o : Option FlagValue)
      → add_pointer flag_set tag o ≡ add_flag tag (flag_value (pointer o))
  unfolding add_pointer
  pointer_flag tag none = refl
  pointer_flag tag (some (string_slice v)) = refl
  pointer_flag tag (some (string v)) = refl
  pointer_flag tag (some (int v)) = refl
  pointer_flag tag (some (bool v)) = refl
  pointer_flag tag (some (duration v)) = refl

  -- Whatever the flag set does with a call: the flags of nested structs are added as by one loop over
  -- the fields in them that are no structs and have a name, in their order, where a field of a type
  -- without a case, or a nil pointer, is a panic.
  pub do_add_command_flags-leaves :
      (options : Fields)
      → do_add_command_flags flag_set options ≡ add_flags (filter_by is_named (leaves options))
  unfolding do_add_command_flags
  do_add_command_flags-leaves no_fields = refl
  do_add_command_flags-leaves (field tag (struct inner) rest) =
      (λ i. do_add_command_flags-leaves inner i >> do_add_command_flags-leaves rest i)
      ∙ sym
          (add_flags-append (filter_by is_named (leaves inner)) (filter_by is_named (leaves rest)))
      ∙ ap add_flags (sym (filter_by-append is_named (leaves inner) (leaves rest)))
  do_add_command_flags-leaves (field tag (value v) rest) =
      leaf tag (value v) (add_var flag_set tag v) _ _ refl (do_add_command_flags-leaves rest)
  do_add_command_flags-leaves (field tag (pointer v) rest) =
      leaf tag (pointer v) (add_pointer flag_set tag v) _ _ (pointer_flag tag v)
        (do_add_command_flags-leaves rest)
  do_add_command_flags-leaves (field tag (other kind) rest) =
      leaf tag (other kind) (λ s. (panic, s)) _ _ refl (do_add_command_flags-leaves rest)
