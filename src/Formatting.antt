-- ===== src/Formatting.antt =====
-- sdk/src/utils/formatting.ts. ethers' `formatUnits` and `parseUnits`, and `toFixed` of a quotient, are
-- the parameter `Units`. A number of seconds is a natural number. Percentages and dates are left out:
-- they only print floats.
pub mod Separators
pub mod Shortening
use set.Prelude.{
  ℕ, zero, suc, ◌+◌, ◌-◌, ◌*◌, ◌/◌, ◌%◌, Bool, true, false, not, ◌&&◌, ◌||◌, Option, none, some,
  List, [], ◌∷◌, ◌++◌, length, ltb, leb, ◌==◌, if◌then◌else◌,
}
use set.Prelude.Int.{ℤ, pos}
use set.Prelude.Text.{Text, codes, decimal}
use set.Errors.{SdkErrorCode, Thrown, sdk, sdk_error}
use set.Effects.{Result, ok, err}
use set.Transactions.Batches.{take, drop}
use set.Transactions.ContractCalls.{trim_zeros}

-- `fixed a b n` is `(a / b).toFixed(n)`.
pub record Units : Type 0 where
  pub format_units : ℤ → ℕ → Text
  pub parse_units : Text → ℕ → Result ℤ
  pub fixed : ℕ → ℕ → ℕ → Text

-- What a caller gives of the options.
pub record FormatBalanceOptions : Type 0 where
  pub max_decimals : Option ℕ
  pub trim : Option Bool
  pub separators : Option Bool
  pub suffix : Option Text

-- `\d`, and `\w`
abbrev pub is_digit : ℕ → Bool
is_digit c = leb b'0' c && leb c b'9'

abbrev pub is_word : ℕ → Bool
is_word c = is_digit c || leb b'a' c && leb c b'z' || leb b'A' c && leb c b'Z' || c == b'_'

-- The digits that the text begins with.
unfoldable pub digit_run : Text → ℕ
digit_run [] = 0
digit_run (c ∷ s) = let rest = digit_run s in if is_digit c then suc rest else 0

abbrev pub same : Bool → Bool → Bool
same true b = b
same false b = not b

-- The places of `/\B(?=(\d{3})+(?!\d))/`: what stands before and after are both of a word or both not,
-- and the digits from here on make whole groups of three, at least one.
unfoldable pub separators_from : Bool → Text → Text
unfolding digit_run
separators_from before [] = []
separators_from before (c ∷ s) =
    let run = digit_run (c ∷ s) in
    let rest = c ∷ separators_from (is_word c) s in
    if same before (is_word c) && (ltb 0 run && run % 3 == 0) then b',' ∷ rest else rest

unfoldable pub add_thousands_separators : Text → Text
unfolding separators_from
add_thousands_separators = separators_from false

-- The first two parts of `raw.split(".")`, the second one empty if it is not there.
unfoldable pub until_dot : Text → Text
until_dot [] = []
until_dot (c ∷ s) = let rest = until_dot s in if c == b'.' then [] else c ∷ rest

unfoldable pub after_dot : Text → Text
after_dot [] = []
after_dot (c ∷ s) = if c == b'.' then s else after_dot s

unfoldable pub split_dot : Text → Text × Text
unfolding until_dot after_dot
split_dot raw = (until_dot raw, until_dot (after_dot raw))

abbrev pub or_else : {A : Type 0} → Option A → A → A
or_else none b = b
or_else (some a) b = a

-- `truncatedDec ? int + "." + truncatedDec : int`
abbrev pub with_decimals : Text → Text → Text
with_decimals int [] = int
with_decimals int (c ∷ s) = int ++ (b'.' ∷ (c ∷ s))

module _ (units : Units) where
  unfoldable pub format_balance : ℤ → ℕ → FormatBalanceOptions → Text
  unfolding split_dot add_thousands_separators
  format_balance amount decimals options =
      let (int, dec) = split_dot (units.format_units amount decimals) in
      let cut = take (or_else options.max_decimals 4) dec in
      let trimmed = if or_else options.trim true then trim_zeros cut else cut in
      let shown = if or_else options.separators false then add_thousands_separators int else int in
      with_decimals shown trimmed ++ or_else options.suffix []

-- `str.replace(/,/g, "")`
unfoldable pub remove_commas : Text → Text
remove_commas [] = []
remove_commas (c ∷ s) = let rest = remove_commas s in if c == b',' then rest else c ∷ rest

-- The `catch` of `parseAmount`.
abbrev pub or_invalid : {A : Type 0} → Text → Result A → Result A
or_invalid amount (ok a) = ok a
or_invalid amount (err e) =
    err (sdk (sdk_error SdkErrorCode.validation_error (codes "Failed to parse amount: " ++ amount)))

-- `{ suffix, ...options }`, and the same with a number of decimals.
abbrev pub with_suffix : Text → FormatBalanceOptions → FormatBalanceOptions
with_suffix s o = record o { suffix = some (or_else o.suffix s) }

abbrev pub with_max_decimals : ℕ → FormatBalanceOptions → FormatBalanceOptions
with_max_decimals n o = record o { max_decimals = some (or_else o.max_decimals n) }

module _ (units : Units) where
  -- A number is given by its text.
  unfoldable pub parse_amount : Text → ℕ → Result ℤ
  unfolding remove_commas
  parse_amount amount decimals =
      or_invalid amount (units.parse_units (remove_commas amount) decimals)

  unfoldable pub format_eth : ℤ → FormatBalanceOptions → Text
  unfolding format_balance
  format_eth wei options = format_balance units wei 18 (with_suffix (codes " ETH") options)

  unfoldable pub parse_eth : Text → Result ℤ
  unfolding parse_amount
  parse_eth eth = parse_amount eth 18

  unfoldable pub format_usd : ℤ → FormatBalanceOptions → Text
  unfolding format_balance
  format_usd amount options =
      format_balance units amount 6 (with_max_decimals 2 (with_suffix (codes " USD") options))

  unfoldable pub parse_usd : Text → Result ℤ
  unfolding parse_amount
  parse_usd usd = parse_amount usd 6

  unfoldable pub format_ss_usd : ℤ → FormatBalanceOptions → Text
  unfolding format_balance
  format_ss_usd amount options =
      format_balance units amount 18 (with_suffix (codes " ssUSD") options)

  unfoldable pub parse_ss_usd : Text → Result ℤ
  unfolding parse_amount
  parse_ss_usd ss_usd = parse_amount ss_usd 18

  unfoldable pub format_gas : ℕ → Text
  format_gas gas =
      if leb 1000000 gas
      then units.fixed gas 1000000 2 ++ codes "M gas"
      else if leb 1000 gas
      then units.fixed gas 1000 1 ++ codes "K gas"
      else decimal gas ++ codes " gas"

-- `s.slice(-chars)`: for 0 this is `s.slice(0)`, the whole text.
abbrev pub slice_end : ℕ → Text → Text
slice_end chars s = if chars == 0 then s else drop (length s - chars) s

-- `shortenAddress` and `shortenTxHash`, which differ in the default of `chars`.
unfoldable pub shorten : Text → ℕ → Text
shorten address chars =
    if ltb (length address) (chars * 2 + 2)
    then address
    else take (chars + 2) address ++ (codes "..." ++ slice_end chars address)

-- A number with its unit, and a second one after it if that is positive.
abbrev pub two_units : ℕ → Text → ℕ → Text → Text
two_units a unit b small =
    if ltb 0 b
    then decimal a ++ (unit ++ (codes " " ++ (decimal b ++ small)))
    else decimal a ++ unit

unfoldable pub format_duration : ℕ → Text
format_duration secs =
    if ltb secs 60
    then decimal secs ++ codes "s"
    else if ltb secs 3600
    then two_units (secs / 60) (codes "m") (secs % 60) (codes "s")
    else if ltb secs 86400
    then two_units (secs / 3600) (codes "h") (secs % 3600 / 60) (codes "m")
    else two_units (secs / 86400) (codes "d") (secs % 86400 / 3600) (codes "h")
