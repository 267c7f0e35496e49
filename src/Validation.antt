-- ===== src/Validation.antt =====
-- sdk/src/utils/validation.ts: the checks of addresses, amounts and hex data. ethers' `isAddress`
-- and `getAddress` are the parameter `Ethers`. An amount is a `bigint` and a text is a `string`, so
-- the tests of the types do not fail. The name of a parameter in an error's message is the default
-- one, and what else describes an error (details, suggestion) is left out.
pub mod Hex
pub mod Amounts
use set.Prelude.{
  ℕ, suc, ◌+◌, ◌%◌, Bool, true, false, not, ◌&&◌, ◌||◌, List, [], ◌∷◌, ◌++◌, length, ltb, leb, ◌==◌,
  if◌then◌else◌,
}
use set.Prelude.Int.{ℤ, pos, ltb_ℤ, leb_ℤ}
use set.Prelude.Text.{Text, codes, decimal_ℤ, starts_with, to_lower_case, text_eq}
use set.Errors.{SdkErrorCode, Thrown, sdk, sdk_error}
use set.Effects.{Result, ok, err}

-- The functions of ethers that the SDK calls on text.
pub record Ethers : Type 0 where
  pub is_address : Text → Bool
  pub get_address : Text → Text
  pub zero_pad_value : Text → ℕ → Text

abbrev pub invalid : {A : Type 0} → SdkErrorCode → Text → Result A
invalid code reason = err (sdk (sdk_error code reason))

-- `new InvalidAmountError(amount, reason)`
abbrev pub invalid_amount : {A : Type 0} → ℤ → Text → Result A
invalid_amount amount reason =
    invalid SdkErrorCode.invalid_amount
      (codes "Invalid amount: " ++ (decimal_ℤ amount ++ (codes " (" ++ (reason ++ codes ")"))))

abbrev pub is_empty : Text → Bool
is_empty [] = true
is_empty (c ∷ s) = false

unfoldable pub validate_address : Ethers → Text → Result Text
validate_address ethers address =
    if is_empty address
    then invalid SdkErrorCode.invalid_address
        (codes "Invalid address: undefined (address is required)")
    else if not (ethers.is_address address)
    then invalid SdkErrorCode.invalid_address
        (codes "Invalid address: " ++ (address ++ codes " (Invalid address format)"))
    else ok (ethers.get_address address)

abbrev pub zero_address : Text
zero_address = codes "0x0000000000000000000000000000000000000000"

unfoldable pub validate_non_zero_address : Ethers → Text → Result Text
unfolding validate_address
validate_non_zero_address ethers address = elim (validate_address ethers address) [
  | err e ↦ err e
  | ok checksummed ↦
      if text_eq checksummed zero_address
      then invalid SdkErrorCode.invalid_address
          (codes "Invalid address: " ++ (address ++ codes " (address cannot be zero address)"))
      else ok checksummed
]

abbrev pub succeeds : {A : Type 0} → Result A → Bool
succeeds (ok a) = true
succeeds (err e) = false

unfoldable pub is_valid_address : Ethers → Text → Bool
unfolding validate_address
is_valid_address ethers address = succeeds (validate_address ethers address)

unfoldable pub validate_positive_amount : ℤ → Result (Unit {0})
validate_positive_amount amount =
    if leb_ℤ amount (pos 0) then invalid_amount amount (codes "amount must be positive") else ok tt

unfoldable pub validate_non_negative_amount : ℤ → Result (Unit {0})
validate_non_negative_amount amount =
    if ltb_ℤ amount (pos 0)
    then invalid_amount amount (codes "amount cannot be negative")
    else ok tt

unfoldable pub validate_amount_bounds : ℤ → ℤ → ℤ → Result (Unit {0})
unfolding validate_non_negative_amount
validate_amount_bounds amount min max = elim (validate_non_negative_amount amount) [
  | err e ↦ err e
  | ok _ ↦
      if ltb_ℤ amount min
      then invalid_amount amount (codes "amount must be at least " ++ decimal_ℤ min)
      else if ltb_ℤ max amount
      then invalid_amount amount (codes "amount must be at most " ++ decimal_ℤ max)
      else ok tt
]

-- `[0-9a-fA-F]`
abbrev pub is_hex_digit : ℕ → Bool
is_hex_digit c = leb b'0' c && leb c b'9' || leb b'a' c && leb c b'f' || leb b'A' c && leb c b'F'

abbrev pub all : (ℕ → Bool) → Text → Bool
all p [] = true
all p (c ∷ s) = p c && all p s

-- `data.slice(2)`
abbrev pub drop_two : Text → Text
drop_two (a ∷ b ∷ s) = s
drop_two _ = []

unfoldable pub validate_hex_data : Text → Result Text
unfolding starts_with
validate_hex_data data_ =
    if is_empty data_
    then invalid SdkErrorCode.invalid_data (codes "data is required")
    else if not (starts_with data_ (codes "0x"))
    then invalid SdkErrorCode.invalid_data (codes "data must start with 0x")
    else if not (all is_hex_digit (drop_two data_))
    then invalid SdkErrorCode.invalid_data (codes "data contains invalid hex characters")
    else if not (length (drop_two data_) % 2 == 0)
    then invalid SdkErrorCode.invalid_data (codes "data must have even length")
    else ok (to_lower_case data_)

unfoldable pub validate_bytes32 : Text → Result Text
unfolding validate_hex_data
validate_bytes32 value = elim (validate_hex_data value) [
  | err e ↦ err e
  | ok validated ↦
      if not (length validated == 66)
      then invalid SdkErrorCode.invalid_data
          (codes "value must be 32 bytes (66 characters including 0x)")
      else ok validated
]

unfoldable pub assert_sufficient_balance : ℕ → ℕ → Result (Unit {0})
assert_sufficient_balance available required =
    if ltb available required
    then invalid SdkErrorCode.insufficient_balance (codes "Insufficient balance")
    else ok tt

unfoldable pub assert_sufficient_allowance : ℕ → ℕ → Result (Unit {0})
assert_sufficient_allowance current_allowance required =
    if ltb current_allowance required
    then invalid SdkErrorCode.insufficient_allowance (codes "Insufficient allowance")
    else ok tt
