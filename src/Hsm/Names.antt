-- ===== src/Hsm/Names.antt =====
-- The texts of hsm_decoder.c: ERROR_TABLE and the two lookups.
use tcp_client.Base.{ℕ, Bool, ◌&&◌, List, [], ◌∷◌, if◌then◌else◌, ◌==◌, String}

-- One row of ERROR_TABLE: the two characters of the code, and its description.
pub record Entry : Type 0 where
  pub first : ℕ
  pub second : ℕ
  pub description : String

abbrev row : ℕ → ℕ → String → Entry
row first second description = record { first = first; second = second; description = description }

-- The rows before the sentinel.
unfoldable pub error_table : List Entry
error_table =
    row b'0' b'0' "No error"
    ∷ row b'0' b'1' "Verification failure (PIN/CVV/MAC)"
    ∷ row b'0' b'2' "Key inappropriate length / Hash validation failure"
    ∷ row b'0' b'3' "Invalid message type / Secret key / Zero PIN block"
    ∷ row b'0' b'4' "Invalid key type code / Public key encoding error"
    ∷ row b'0' b'5' "Invalid key length flag / Hash ID / Odd input pairs"
    ∷ row b'0' b'6' "Invalid signature ID / Public key algorithm ID"
    ∷ row b'0' b'7' "Public exponent length error / Key length mismatch"
    ∷ row b'0' b'8' "Invalid public exponent"
    ∷ row b'0' b'9' "Secret key error"
    ∷ row b'1' b'0' "Source key parity error (ZMK, TPK, BDK)"
    ∷ row b'1' b'1' "Destination key parity error or key all zeros"
    ∷ row b'1' b'2' "User storage not available"
    ∷ row b'1' b'3' "Invalid LMK Identifier"
    ∷ row b'1' b'4' "PIN encrypted under LMK pair 02-03 invalid"
    ∷ row b'1' b'5' "Invalid input data format / Missing delimiter"
    ∷ row b'1' b'6' "Console or printer not ready"
    ∷ row b'1' b'7' "HSM not authorized or operation prohibited"
    ∷ row b'1' b'8' "Document format definition not loaded"
    ∷ row b'1' b'9' "Specified Diebold table invalid"
    ∷ row b'2' b'0' "PIN block does not contain valid values"
    ∷ row b'2' b'1' "Invalid index value or overflow"
    ∷ row b'2' b'2' "Invalid account number"
    ∷ row b'2' b'3' "Invalid PIN block format code / PCI HSM limitation"
    ∷ row b'2' b'4' "PIN is fewer than 4 or more than 12 digits"
    ∷ row b'2' b'5' "Decimalization Table error"
    ∷ row b'2' b'6' "Invalid key scheme indicator"
    ∷ row b'2' b'7' "Incompatible key length"
    ∷ row b'2' b'8' "Invalid key type"
    ∷ row b'2' b'9' "Key function not permitted / Key separation violation"
    ∷ row b'3' b'0' "Invalid reference number"
    ∷ row b'3' b'1' "Insufficient solicitation entries for batch"
    ∷ row b'3' b'2' "AES not licensed"
    ∷ row b'3' b'3' "LMK key change storage corrupted"
    ∷ row b'4' b'0' "Invalid firmware checksum"
    ∷ row b'4' b'1' "Internal hardware/software error"
    ∷ row b'4' b'2' "DES failure"
    ∷ row b'4' b'3' "RSA Key Generation failure"
    ∷ row b'4' b'7' "Hardware failure"
    ∷ row b'5' b'1' "Invalid message header"
    ∷ row b'6' b'5' "Transaction Key Scheme set to None"
    ∷ row b'6' b'7' "Command not licensed"
    ∷ row b'6' b'8' "Command disabled in security settings"
    ∷ row b'6' b'9' "PIN block format disabled"
    ∷ row b'8' b'0' "Data length error"
    ∷ row b'A' b'1' "Incompatible LMK schemes"
    ∷ row b'A' b'2' "Incompatible LMK identifiers"
    ∷ row b'A' b'3' "Incompatible key block LMK identifiers"
    ∷ row b'A' b'4' "Key block authentication failure"
    ∷ row b'A' b'5' "Incompatible key length in Key Block"
    ∷ row b'A' b'6' "TR-31: Invalid key usage attribute"
    ∷ row b'A' b'7' "TR-31: Invalid algorithm attribute"
    ∷ row b'A' b'8' "TR-31: Invalid mode of use attribute"
    ∷ row b'A' b'9' "TR-31: Invalid key version number"
    ∷ row b'A' b'A' "TR-31: Invalid export field"
    ∷ row b'A' b'B' "TR-31: Invalid number of optional blocks"
    ∷ row b'B' b'B' "TR-31: Invalid wrapping key (ZMK)"
    ∷ row b'B' b'C' "TR-31: Repeated optional block"
    ∷ []

unfoldable pub is_code : ℕ → ℕ → ℕ → ℕ → Bool
is_code first second a b = a == first && b == second

-- hsm_lookup_command_name, for a code that is not NULL.
unfoldable pub command_name : ℕ → ℕ → String
command_name a b =
    if is_code b'A' b'1' a b
    then "Generate a Key Response"
    else if is_code b'N' b'D' a b
    then "Diagnostics Response"
    else if is_code b'C' b'C' a b
    then "Generate MAC Response"
    else if is_code b'E' b'F' a b
    then "Translate PIN Block Response"
    else if is_code b'F' b'B' a b
    then "Generate CVV Response"
    else if is_code b'D' b'H' a b
    then "Generate Dynamic CVV Response"
    else if is_code b'C' b'B' a b
    then "Cancel Command Response"
    else if is_code b'B' b'V' a b
    then "Generate RSA Key Pair Response"
    else if is_code b'N' b'1' a b
    then "Generate HMK Key Response"
    else "Unknown Response Code"

unfoldable pub lookup_loop : List Entry → ℕ → ℕ → String
lookup_loop [] a b = "Unrecognized HSM Error Code"
lookup_loop (e ∷ rows) a b =
    if is_code e.first e.second a b then e.description else lookup_loop rows a b

-- hsm_lookup_error_code, for a code that is not NULL.
unfoldable pub error_description : ℕ → ℕ → String
error_description a b = lookup_loop error_table a b
