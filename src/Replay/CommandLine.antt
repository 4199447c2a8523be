-- ===== src/Replay/CommandLine.antt =====
-- `parse_args` of src/replay.cpp. The functions `atoi` and `atoll` of the C library are parameters.
pub mod Options
use Prim.Native.String.{String}
use text.Mathlib.Text as Texts
use orderbook_engine.Base.{
  ℕ, ◌^◌, Bool, true, false, not, ◌&&◌, ◌||◌, Option, none, some, List, [], ◌∷◌, if◌then◌else◌,
}
use orderbook_engine.Base.Int.{ℤ, pos, to_unsigned}
use orderbook_engine.Types.{Price}

pub record Args : Type 0 where
  pub file : String
  pub symbol : String
  pub out_dir : String
  pub base_price : Price
  pub num_levels : ℕ
  pub max_orders : ℕ
  pub itch_tick : ℤ
  pub top_n : ℕ
  pub snapshot_only : Bool

abbrev pub defaults : Args
defaults = record {
  file = "";
  symbol = "AAPL";
  out_dir = ".";
  base_price = pos 0;
  num_levels = 2 ^ 17;
  max_orders = 2 ^ 20;
  itch_tick = pos 100;
  top_n = 10;
  snapshot_only = false;
}

-- The arguments, or the status with which the program exits.
pub data Parsed : Type 0 where
  exits : (status : ℕ) → Parsed
  parsed : Args → Parsed

-- The options that want a value.
pub data OptionName : Type 0 where
  symbol out_dir base num_levels max_orders tick top_n : OptionName

-- What an argument is.
pub data Kind : Type 0 where
  wants_value : OptionName → Kind
  snapshot_only help plain unknown : Kind

abbrev pub same : String → String → Bool
same s t = Texts.◌==◌ s t

-- The chain of comparisons.
unfoldable pub kind : String → Kind
kind s =
    if same s "--symbol"
    then Kind.wants_value OptionName.symbol
    else if same s "--out-dir"
    then Kind.wants_value OptionName.out_dir
    else if same s "--base"
    then Kind.wants_value OptionName.base
    else if same s "--num-levels"
    then Kind.wants_value OptionName.num_levels
    else if same s "--max-orders"
    then Kind.wants_value OptionName.max_orders
    else if same s "--tick"
    then Kind.wants_value OptionName.tick
    else if same s "--top-n"
    then Kind.wants_value OptionName.top_n
    else if same s "--snapshot-only"
    then Kind.snapshot_only
    else if same s "-h" || same s "--help"
    then Kind.help
    else if not (same s "") && not (Texts.starts_with s "-")
    then Kind.plain
    else Kind.unknown

module _ (atoi atoll : String → ℤ) where
  abbrev pub set_option : OptionName → (value : String) → Args → Args
  set_option OptionName.symbol v a = record a { symbol = v }
  set_option OptionName.out_dir v a = record a { out_dir = v }
  set_option OptionName.base v a = record a { base_price = atoi v }
  set_option OptionName.num_levels v a = record a { num_levels = to_unsigned 64 (atoll v) }
  set_option OptionName.max_orders v a = record a { max_orders = to_unsigned 64 (atoll v) }
  set_option OptionName.tick v a = record a { itch_tick = atoi v }
  set_option OptionName.top_n v a = record a { top_n = to_unsigned 64 (atoll v) }

  -- The loop over the arguments and the test after it. An option whose value comes next is kept in the second
  -- argument.
  unfoldable pub args_loop : List String → Option OptionName → Args → Parsed
  args_loop [] (some o) a = Parsed.exits 2
  args_loop [] none a = if same a.file "" then Parsed.exits 2 else Parsed.parsed a
  args_loop (v ∷ rest) (some o) a = args_loop rest none (set_option o v a)
  args_loop (s ∷ rest) none a = elim (kind s) [
    | Kind.wants_value o ↦ args_loop rest (some o) a
    | Kind.snapshot_only ↦ args_loop rest none (record a { snapshot_only = true })
    | Kind.help ↦ Parsed.exits 0
    | Kind.plain ↦ args_loop rest none (record a { file = s })
    | Kind.unknown ↦ Parsed.exits 2
  ]

  unfoldable pub parse_args : List String → Parsed
  parse_args argv = args_loop argv none defaults
