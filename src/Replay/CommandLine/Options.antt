-- ===== src/Replay/CommandLine/Options.antt =====
-- The command line of options with values and a file, and what the arguments are read as.
use Prim.Native.String.{String}
use orderbook_engine.Base.{
  ◌≡◌, refl, ap, ◌∙◌, Bool, true, false, if◌then◌else◌, List, [], ◌∷◌, none,
}
use orderbook_engine.Base.Int.{ℤ, pos, to_unsigned}
use orderbook_engine.Replay.CommandLine.{
  Args, defaults, Parsed, OptionName, Kind, same, kind, set_option, args_loop, parse_args,
}

-- An option as it is typed.
abbrev pub option_text : OptionName → String
option_text OptionName.symbol = "--symbol"
option_text OptionName.out_dir = "--out-dir"
option_text OptionName.base = "--base"
option_text OptionName.num_levels = "--num-levels"
option_text OptionName.max_orders = "--max-orders"
option_text OptionName.tick = "--tick"
option_text OptionName.top_n = "--top-n"

-- What is typed: an option with its value, or that only the snapshot is wanted.
pub data Setting : Type 0 where
  option : OptionName → (value : String) → Setting
  only_snapshot : Setting

abbrev pub typed : List Setting → (file : String) → List String
typed [] file = file ∷ []
typed (Setting.option o v ∷ more) file = option_text o ∷ v ∷ typed more file
typed (Setting.only_snapshot ∷ more) file = "--snapshot-only" ∷ typed more file

kind-option_text : (o : OptionName) → kind (option_text o) ≡ Kind.wants_value o
unfolding kind
kind-option_text OptionName.symbol = refl
kind-option_text OptionName.out_dir = refl
kind-option_text OptionName.base = refl
kind-option_text OptionName.num_levels = refl
kind-option_text OptionName.max_orders = refl
kind-option_text OptionName.tick = refl
kind-option_text OptionName.top_n = refl

kind_only_snapshot : kind "--snapshot-only" ≡ Kind.snapshot_only
unfolding kind
kind_only_snapshot = refl

-- What the help text promises for the options that are not given.
abbrev pub documented : (file : String) → Args
documented file = record {
  file = file;
  symbol = "AAPL";
  out_dir = ".";
  base_price = pos 0;
  num_levels = 131072;
  max_orders = 1048576;
  itch_tick = pos 100;
  top_n = 10;
  snapshot_only = false;
}

-- The value of the last option that is typed like this, or the present one if there is none.
abbrev pub latest {ℓ} :
    {A : Type ℓ} → (typed_as : String) → (read : String → A) → (present : A) → List Setting → A
latest typed_as read present [] = present
latest typed_as read present (Setting.option o v ∷ more) =
    latest typed_as read (if same (option_text o) typed_as then read v else present) more
latest typed_as read present (Setting.only_snapshot ∷ more) = latest typed_as read present more

-- Whether only the snapshot is wanted.
abbrev pub asked : (present : Bool) → List Setting → Bool
asked present [] = present
asked present (Setting.option o v ∷ more) = asked present more
asked present (Setting.only_snapshot ∷ more) = asked true more

module _ (atoi atoll : String → ℤ) where
  -- The arguments field by field, each from the option that the help text names for it.
  abbrev pub fields : List Setting → Args → Args
  fields settings a = record {
    file = a.file;
    symbol = latest "--symbol" (λ v. v) a.symbol settings;
    out_dir = latest "--out-dir" (λ v. v) a.out_dir settings;
    base_price = latest "--base" atoi a.base_price settings;
    num_levels = latest "--num-levels" (λ v. to_unsigned 64 (atoll v)) a.num_levels settings;
    max_orders = latest "--max-orders" (λ v. to_unsigned 64 (atoll v)) a.max_orders settings;
    itch_tick = latest "--tick" atoi a.itch_tick settings;
    top_n = latest "--top-n" (λ v. to_unsigned 64 (atoll v)) a.top_n settings;
    snapshot_only = asked a.snapshot_only settings;
  }

  fields-set_option :
      (o : OptionName) (v : String) (more : List Setting) (a : Args)
      → fields more (set_option atoi atoll o v a) ≡ fields (Setting.option o v ∷ more) a
  fields-set_option OptionName.symbol v more a = refl
  fields-set_option OptionName.out_dir v more a = refl
  fields-set_option OptionName.base v more a = refl
  fields-set_option OptionName.num_levels v more a = refl
  fields-set_option OptionName.max_orders v more a = refl
  fields-set_option OptionName.tick v more a = refl
  fields-set_option OptionName.top_n v more a = refl

  args_loop-typed :
      (settings : List Setting) (file : String) (a : Args)
      → kind file ≡ Kind.plain
      → same file "" ≡ false
      → args_loop atoi atoll (typed settings file) none a
        ≡ Parsed.parsed (record (fields settings a) { file = file })
  unfolding args_loop
  args_loop-typed [] file a plain named = rw (args_loop, plain, named) refl
  args_loop-typed (Setting.option o v ∷ more) file a plain named =
      rw (args_loop, kind-option_text o)
        (args_loop-typed more file (set_option atoi atoll o v a) plain named)
      ∙ ap (λ z. Parsed.parsed (record z { file = file })) (fields-set_option o v more a)
  args_loop-typed (Setting.only_snapshot ∷ more) file a plain named =
      rw (args_loop, kind_only_snapshot)
        (args_loop-typed more file (record a { snapshot_only = true }) plain named)

  -- Of options with any values and a file whose name is not empty and reads as no option, `parse_args` reads the
  -- file and, into each field, the value of the last option that is typed for it, or what the help text promises
  -- if there is none: the symbol and the directory as they are, the base and the tick by `atoi`, the sizes by
  -- `atoll` as 64-bit words. Only the snapshot is wanted if that is typed anywhere.
  pub parse_args-typed :
      (settings : List Setting) (file : String)
      → kind file ≡ Kind.plain
      → same file "" ≡ false
      → parse_args atoi atoll (typed settings file)
        ≡ Parsed.parsed (fields settings (documented file))
  unfolding parse_args
  parse_args-typed settings file plain named = args_loop-typed settings file defaults plain named

  args_loop-missing :
      (settings : List Setting) (o : OptionName) (a : Args)
      → args_loop atoi atoll (typed settings (option_text o)) none a ≡ Parsed.exits 2
  unfolding args_loop
  args_loop-missing [] o a = rw (args_loop, kind-option_text o) refl
  args_loop-missing (Setting.option p v ∷ more) o a =
      rw (args_loop, kind-option_text p) (args_loop-missing more o (set_option atoi atoll p v a))
  args_loop-missing (Setting.only_snapshot ∷ more) o a =
      rw (args_loop, kind_only_snapshot)
        (args_loop-missing more o (record a { snapshot_only = true }))

  -- A last option without its value ends the program with the status 2.
  pub parse_args-missing :
      (settings : List Setting) (o : OptionName)
      → parse_args atoi atoll (typed settings (option_text o)) ≡ Parsed.exits 2
  unfolding parse_args
  parse_args-missing settings o = args_loop-missing settings o defaults
