-- ===== src/Programs/Args.antt =====
-- `ParseArgs` of src/apps/pgmemd_main.cpp, with the defaults of include/pgmem/config/defaults.h. `atoi`
-- is that of numbers in the range of an `int`, whose two's complement stands for it.
use poorguy_mem.Common.{
  ℕ, ◌+◌, ◌-◌, ◌*◌, ◌%◌, ◌^◌, Bool, true, false, ◌&&◌, List, [], ◌∷◌, ◌++◌, Text, text, text_eq,
  if◌then◌else◌, ◌==◌, leb, word,
}
use poorguy_mem.Tokens.{is_space}

-- The number that the digits at the head of a text write.
unfoldable pub digits_from : ℕ → Text → ℕ
digits_from n [] = n
digits_from n (c ∷ s) =
    let rest = digits_from (n * 10 + (c - 48)) s in if leb 48 c && leb c 57 then rest else n

unfoldable pub skip_spaces : Text → Text
skip_spaces [] = []
skip_spaces (c ∷ s) = let rest = skip_spaces s in if is_space c then rest else c ∷ s

unfoldable pub signed : Text → Bool × Text
signed [] = (false, [])
signed (c ∷ s) = if c == b'-' then (true, s) else if c == b'+' then (false, s) else (false, c ∷ s)

unfoldable pub strtoull : Text → ℕ
strtoull s =
    let (negated, digits) = signed (skip_spaces s) in
    let n = digits_from 0 digits in
    if leb word n then word - 1 else if negated then (word - n) % word else n

unfoldable pub atoi : Text → ℕ
atoi s =
    let (negated, digits) = signed (skip_spaces s) in
    let n = digits_from 0 digits in if negated then (2 ^ 32 - n) % 2 ^ 32 else n

-- `Args`; the build sets no other default backend.
pub record Args : Type 0 where
  pub host : Text
  pub port : ℕ
  pub store_backend : Text
  pub store_root : Text
  pub core_number : ℕ
  pub mem_budget_mb : ℕ
  pub disk_budget_gb : ℕ
  pub test_force_io_uring_unavailable : Bool
  pub invalid : Bool
  pub invalid_message : Text

abbrev pub default_args : Args
default_args = record {
  host = text "0.0.0.0";
  port = 8765;
  store_backend = text "eloqstore";
  store_root = text ".pgmem/store";
  core_number = 4;
  mem_budget_mb = 512;
  disk_budget_gb = 20;
  test_force_io_uring_unavailable = false;
  invalid = false;
  invalid_message = [];
}

abbrev pub allowed_pgmemd_flags : Text
allowed_pgmemd_flags =
    text "--host --port --store-backend --store-root --core-number --mem-budget-mb --disk-budget-gb"

unfoldable pub unknown_argument : Text → Args → Args
unknown_argument key args = record args {
  invalid = true;
  invalid_message =
      text "unknown argument: " ++ (key ++ (text "; allowed flags: " ++ allowed_pgmemd_flags));
}

-- The flags that take a value.
abbrev pub takes_value : Text → Bool
takes_value key =
    if text_eq key (text "--host")
    then true
    else if text_eq key (text "--port")
    then true
    else if text_eq key (text "--store-backend")
    then true
    else if text_eq key (text "--store-root")
    then true
    else if text_eq key (text "--core-number")
    then true
    else if text_eq key (text "--mem-budget-mb")
    then true
    else text_eq key (text "--disk-budget-gb")

unfoldable pub set_value : Text → Text → Args → Args
set_value key value args =
    if text_eq key (text "--host")
    then record args { host = value }
    else if text_eq key (text "--port")
    then record args { port = atoi value }
    else if text_eq key (text "--store-backend")
    then record args { store_backend = value }
    else if text_eq key (text "--store-root")
    then record args { store_root = value }
    else if text_eq key (text "--core-number")
    then record args { core_number = atoi value }
    else if text_eq key (text "--mem-budget-mb")
    then record args { mem_budget_mb = strtoull value }
    else record args { disk_budget_gb = strtoull value }

-- The loop over the arguments: a flag at the end that lacks its value is an unknown argument.
unfoldable pub parse_from : Args → List Text → Args
parse_from args [] = args
parse_from args (key ∷ []) =
    if text_eq key (text "--test-force-io-uring-unavailable")
    then record args { test_force_io_uring_unavailable = true }
    else unknown_argument key args
parse_from args (key ∷ value ∷ rest) = elim (takes_value key) [
  | true ↦ parse_from (set_value key value args) rest
  | false ↦ elim (text_eq key (text "--test-force-io-uring-unavailable")) [
    | true ↦ parse_from (record args { test_force_io_uring_unavailable = true }) (value ∷ rest)
    | false ↦ unknown_argument key args
  ]
]

-- `ParseArgs`, of the arguments behind the name of the program.
unfoldable pub parse_args : List Text → Args
parse_args argv = parse_from default_args argv
