-- ===== src/Target/Bytes.antt =====
-- Numbers as bytes in memory order, and bytes as they are printed.
use ajardsp.Common.{ℕ, ◌+◌, ◌*◌, ◌/◌, ◌%◌, ◌^◌, ◌<◌, ◌≡◌, arith, List, [], ◌∷◌}
use ajardsp.Common.{CString}
use ajardsp.Asm.Output.{hex_digit}

-- The bytes of an `int`, and of an `unsigned short`, in the memory of the host, which is an x86:
-- the lowest byte first.
unfoldable pub int_bytes : ℕ → List ℕ
int_bytes x = x % 256 ∷ x / 2 ^ 8 % 256 ∷ x / 2 ^ 16 % 256 ∷ x / 2 ^ 24 % 256 ∷ []

unfoldable pub short_bytes : ℕ → List ℕ
short_bytes x = x % 256 ∷ x / 2 ^ 8 % 256 ∷ []

-- The number that four bytes stand for, the lowest first.
unfoldable pub word_of : ℕ → ℕ → ℕ → ℕ → ℕ
word_of a b c d = a + 2 ^ 8 * b + 2 ^ 16 * c + 2 ^ 24 * d

-- `%02x` of a byte.
unfoldable pub hex_byte : ℕ → CString
unfolding hex_digit
hex_byte x = hex_digit (x / 16 % 16) ∷ hex_digit (x % 16) ∷ []

pub word_of-bytes :
    (x : ℕ)
    → x < 2 ^ 32
    → word_of (x % 256) (x / 2 ^ 8 % 256) (x / 2 ^ 16 % 256) (x / 2 ^ 24 % 256) ≡ x
unfolding word_of
word_of-bytes x h = omega arith
