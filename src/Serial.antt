-- ===== src/Serial.antt =====
-- crates/kernel/src/serial/uart16550.rs seen from the kernel: the bytes handed to the transmitter, in
-- order, and the bytes that wait in the receive buffer. The child
-- Uart.antt has the polling loops on the line status, which `putc` here leaves out.
pub mod Setup
pub mod Writer
pub mod Digits
pub mod Uart
use Prim.Native.Char.{code}
use cyptos.Prelude.{
  ℕ, zero, suc, ◌+◌, ◌-◌, ◌/◌, ◌%◌, ◌^◌, ◌>>>◌, String, List, [], ◌∷◌, ◌++◌, Option, none, some,
  bit_and, ltb, ◌==◌, if◌then◌else◌,
}

pub record Console : Type 0 where
  pub sent : List ℕ
  pub rx : List ℕ

-- The bytes of a text, in UTF-8.
pub utf8 : ℕ → List ℕ
utf8 c =
    if ltb c 0x80
    then c ∷ []
    else if ltb c 0x800
    then (0xc0 + c / 2 ^ 6) ∷ (0x80 + c % 2 ^ 6) ∷ []
    else if ltb c 0x1_0000
    then (0xe0 + c / 2 ^ 12) ∷ (0x80 + c / 2 ^ 6 % 2 ^ 6) ∷ (0x80 + c % 2 ^ 6) ∷ []
    else ((0xf0 + c / 2 ^ 18)
        ∷ (0x80 + c / 2 ^ 12 % 2 ^ 6)
        ∷ (0x80 + c / 2 ^ 6 % 2 ^ 6)
        ∷ (0x80 + c % 2 ^ 6)
        ∷ [])

unfoldable pub bytes : String → List ℕ
unfolding utf8
bytes String.[] = []
bytes (String.◌∷◌ c s) = utf8 (code c) ++ bytes s

-- `init`: the write to the FIFO control register empties the receive buffer.
unfoldable pub init : Console → Console
init k = record k { rx = [] }

unfoldable pub putc : ℕ → Console → Console
putc c k = record k { sent = k.sent ++ c ∷ [] }

unfoldable pub put_bytes : List ℕ → Console → Console
unfolding putc
put_bytes [] k = k
put_bytes (c ∷ cs) k = put_bytes cs (putc c (if c == b'\n' then putc b'\r' k else k))

unfoldable pub puts : String → Console → Console
unfolding bytes put_bytes
puts s k = put_bytes (bytes s) k

-- The first loop of `put_dec`: what it leaves in `buf`, lowest digit first. `fuel` is the length of
-- `buf`.
unfoldable pub dec_digits : ℕ → ℕ → List ℕ
dec_digits zero n = []
dec_digits (suc fuel) n =
    let rest = dec_digits fuel (n / 10) in if ltb 0 n then (b'0' + n % 10) ∷ rest else []

hex_digit : ℕ → ℕ
hex_digit d = if ltb d 10 then b'0' + d else b'a' + d - 10

unfoldable pub hex_digits : ℕ → ℕ → List ℕ
unfolding hex_digit
hex_digits zero n = []
hex_digits (suc fuel) n =
    let rest = hex_digits fuel (n >>> 4) in if ltb 0 n then hex_digit (bit_and n 0xf) ∷ rest else []

-- The second loop: the buffer from its end back to its start.
unfoldable pub put_back : List ℕ → Console → Console
unfolding putc
put_back [] k = k
put_back (d ∷ buf) k = putc d (put_back buf k)

unfoldable pub put_dec : ℕ → Console → Console
unfolding dec_digits put_back
put_dec n k = if n == 0 then putc b'0' k else put_back (dec_digits 20 n) k

unfoldable pub put_hex : ℕ → Console → Console
unfolding puts hex_digits put_back
put_hex n k = let k' = puts "0x" k in if n == 0 then putc b'0' k' else put_back (hex_digits 16 n) k'

received : Console → List ℕ → Option ℕ × Console
received k [] = (none, k)
received k (c ∷ cs) = (some c, record k { rx = cs })

-- The read of the receive register takes the byte out of the buffer.
unfoldable pub try_getc : Console → Option ℕ × Console
unfolding received
try_getc k = received k k.rx
