-- ===== src/Rdp/Progressive/Bits.antt =====
-- rdp-sidecar/src/progressif.rs: `LecteurBits` and `LecteurSrl`, which read the bits of a refinement.
use avash.Base.{
  ℕ, zero, suc, ◌+◌, ◌-◌, ◌*◌, ◌/◌, ◌%◌, ◌^◌, min, Bool, true, false, not, Option, none, some,
  get_elem?, ltb, ◌==◌, if◌then◌else◌,
}
use avash.Base.Text.{Bytes}
use avash.Base.Int.{ℤ, pos, neg}

pub record BitReader : Type 0 where
  pub octets : Bytes
  pub position : ℕ

abbrev pub bit_reader : Bytes → BitReader
bit_reader octets = record { octets = octets; position = 0 }

-- Past the end, zeros.
abbrev pub bit_of : Option ℕ → ℕ → Bool
bit_of none i = false
bit_of (some o) i = o / 2 ^ (7 - i) % 2 == 1

-- `bit`
unfoldable pub read_bit : BitReader → Bool × BitReader
read_bit r = (
  bit_of (get_elem? r.octets (r.position / 8)) (r.position % 8),
  record r { position = r.position + 1 },
)

abbrev pub bit_value : Bool → ℕ
bit_value true = 1
bit_value false = 0

-- The fold of `bits`: `n` bits are left, `v` is what is read.
unfoldable pub read_bits_from : ℕ → ℕ → BitReader → ℕ × BitReader
unfolding read_bit
read_bits_from zero v r = (v, r)
read_bits_from (suc n) v r =
    let (b, r') = read_bit r in read_bits_from n (v * 2 % 2 ^ 32 + bit_value b) r'

-- `bits`
unfoldable pub read_bits : ℕ → BitReader → ℕ × BitReader
unfolding read_bits_from
read_bits n r = read_bits_from n 0 r

pub record SrlReader : Type 0 where
  pub bits : BitReader
  pub kp : ℕ
  pub zeros : ℕ
  pub unary : Bool

abbrev pub srl_reader : Bytes → SrlReader
srl_reader octets = record { bits = bit_reader octets; kp = 8; zeros = 0; unary = false }

-- `while g < max && !bit()`: `n` is `max - g`.
unfoldable pub unary_from : ℕ → ℕ → BitReader → ℕ × BitReader
unfolding read_bit
unary_from zero g r = (g, r)
unary_from (suc n) g r = elim (read_bit r).0 [
  | true ↦ (g, (read_bit r).1)
  | false ↦ unary_from n (g + 1) (read_bit r).1
]

abbrev pub magnitude : ℕ → BitReader → ℕ × BitReader
magnitude bits r = if bits == 1 then (1, r) else unary_from (2 ^ bits - 1 - 1) 1 r

abbrev pub signed : Bool → ℕ → ℤ
signed negative g = if negative then neg (pos (min g 32767)) else pos (min g 32767)

-- The value that follows a run: its sign, then its magnitude.
unfoldable pub read_value : ℕ → SrlReader → ℤ × SrlReader
unfolding read_bit unary_from
read_value bits r =
    let (negative, after) = read_bit r.bits in
    let (g, after') = magnitude bits after in
    (signed negative g, record r { bits = after'; kp = r.kp - 6; unary = false })

-- A run is announced: at least 2 ^ k zeros, or their number and then a value.
unfoldable pub read_run : ℕ → SrlReader → ℤ × SrlReader
unfolding read_bit read_bits read_value
read_run bits r =
    let k = r.kp / 8 in
    let (more, after) = read_bit r.bits in
    let (n, after') = read_bits k after in
    if not more
    then (pos 0, record r { bits = after; zeros = 2 ^ k - 1; kp = min (r.kp + 4) 80 })
    else if ltb 0 n
    then (pos 0, record r { bits = after'; zeros = n - 1; unary = true })
    else read_value bits (record r { bits = after'; zeros = 0; unary = true })

-- `lire`
unfoldable pub read_srl : ℕ → SrlReader → ℤ × SrlReader
unfolding read_value read_run
read_srl bits r =
    if ltb 0 r.zeros
    then (pos 0, record r { zeros = r.zeros - 1 })
    else if r.unary
    then read_value bits r
    else read_run bits r
