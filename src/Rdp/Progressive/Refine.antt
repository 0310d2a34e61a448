-- ===== src/Rdp/Progressive/Refine.antt =====
-- rdp-sidecar/src/progressif.rs: `EtatTuile`, `positions`, `bandes` and `affiner`. The ten values of a
-- `ComponentCodecQuant`, one for each band, are a list. A function that may fail returns what it has
-- changed and whether it succeeded.
use avash.Base.{
  ℕ, zero, suc, ◌+◌, ◌-◌, min, Bool, true, false, ◌&&◌, ◌||◌, List, [], ◌∷◌, ◌++◌, length, take,
  drop, get_or, set, replicate, ltb, leb, ◌==◌, if◌then◌else◌,
}
use avash.Base.Text.{Bytes}
use avash.Base.Int.{ℤ, pos, negsuc, neg, is_negative, signum, shl32, add32, is_i16}
use avash.Rdp.Progressive.Bits.{BitReader, bit_reader, read_bits, SrlReader, srl_reader, read_srl}

-- The state of one component of a tile.
pub record Component : Type 0 where
  pub coefficients : List ℤ
  pub signs : List ℤ
  pub positions : List ℕ

abbrev pub coeffs : ℕ
coeffs = 4096

abbrev pub bands_count : ℕ
bands_count = 10

-- `EtatTuile::default`, of one component.
abbrev pub new_component : Component
new_component = record {
  coefficients = replicate coeffs (pos 0);
  signs = replicate coeffs (pos 0);
  positions = replicate bands_count 0;
}

abbrev pub Quant : Type 0
Quant = List ℕ

-- `positions`
unfoldable pub positions : Quant → Quant → List ℕ
positions [] prog = []
positions (a ∷ base) [] = []
positions (a ∷ base) (b ∷ prog) = min 255 (a + b) ∷ positions base prog

pub record Band : Type 0 where
  pub offset : ℕ
  pub count : ℕ

-- The bands of `bandes` without extrapolation, from the band `b` on, of which `n` are left.
unfoldable pub square_bands : ℕ → ℕ → ℕ → List Band
square_bands zero b start = []
square_bands (suc n) b start =
    let count : ℕ = if leb b 2 then 1024 else if leb b 5 then 256 else 64 in
    record { offset = start; count = count } ∷ square_bands n (b + 1) (start + count)

-- `bandes`, where the layout with extrapolation is ironrdp's.
unfoldable pub bands : List Band → Bool → List Band
unfolding square_bands
bands layout extrapolate = if extrapolate then layout else square_bands bands_count 0 0

abbrev pub is_positive : ℤ → Bool
is_positive (pos n) = ltb 0 n
is_positive (negsuc n) = false

-- The readers of a refinement, which go through all bands of a component.
pub record Readers : Type 0 where
  pub srl : SrlReader
  pub raw : BitReader

-- `i16::try_from(c + (value << shift))`, or the bound on the side of the value.
unfoldable pub added : ℤ → ℤ → ℕ → ℤ
unfolding shl32 add32
added c value shift =
    let sum = add32 c (shl32 value shift) in
    if is_i16 sum then sum else if is_negative value then negsuc 32767 else pos 32767

pub record Refined : Type 0 where
  pub coefficient : ℤ
  pub sign : ℤ
  pub readers : Readers

-- `i32::try_from(bits).unwrap_or(i32::MAX)`
abbrev pub to_i32 : ℕ → ℤ
to_i32 n = pos (min n 0x7fff_ffff)

-- The body of the loop over the coefficients of a band.
unfoldable pub refine_one : Bool → ℕ → ℕ → ℤ → ℤ → Readers → Refined
unfolding read_bits read_srl added
refine_one is_ll3 bits shift c s rd =
    let (v, raw) = read_bits bits rd.raw in
    let (w, srl) = read_srl bits rd.srl in
    if is_ll3 || is_positive s
    then record {
      coefficient = added c (to_i32 v) shift;
      sign = s;
      readers = record rd { raw = raw };
    }
    else if is_negative s
    then record {
      coefficient = added c (neg (to_i32 v)) shift;
      sign = s;
      readers = record rd { raw = raw };
    }
    else record {
      coefficient = added c w shift;
      sign = signum w;
      readers = record rd { srl = srl };
    }

pub record BandRefined : Type 0 where
  pub coefficients : List ℤ
  pub signs : List ℤ
  pub readers : Readers

abbrev pub with_first : Refined → BandRefined → BandRefined
with_first one rest = record {
  coefficients = one.coefficient ∷ rest.coefficients;
  signs = one.sign ∷ rest.signs;
  readers = rest.readers;
}

-- The loop over the coefficients and signs of a band.
unfoldable pub refine_all : Bool → ℕ → ℕ → List ℤ → List ℤ → Readers → BandRefined
unfolding refine_one
refine_all is_ll3 bits shift [] ss rd = record { coefficients = []; signs = ss; readers = rd }
refine_all is_ll3 bits shift (c ∷ cs) [] rd = record {
  coefficients = c ∷ cs;
  signs = [];
  readers = rd;
}
refine_all is_ll3 bits shift (c ∷ cs) (s ∷ ss) rd =
    let one = refine_one is_ll3 bits shift c s rd in
    with_first one (refine_all is_ll3 bits shift cs ss one.readers)

-- `v[start..start + count]` in a list, replaced.
abbrev pub replaced : List ℤ → Band → List ℤ → List ℤ
replaced l band new = take band.offset l ++ (new ++ drop (band.offset + band.count) l)

abbrev pub window : List ℤ → Band → List ℤ
window l band = take band.count (drop band.offset l)

abbrev pub holds_band : List ℤ → Band → Bool
holds_band l band = leb (band.offset + band.count) (length l)

-- One band of which `bits` bits are read, and the component after it.
unfoldable pub refine_band : Bool → ℕ → ℕ → Band → Component → Readers → Component × Readers
unfolding refine_all
refine_band is_ll3 bits shift band k rd =
    let done = refine_all is_ll3 bits shift (window k.coefficients band) (window k.signs band) rd in
    (
      record k {
        coefficients = replaced k.coefficients band done.coefficients;
        signs = replaced k.signs band done.signs;
      },
      done.readers,
    )

-- The loop over the bands, from the band `b` on.
unfoldable pub refine_bands : List Band → List ℕ → ℕ → Component → Readers → Component × Bool
unfolding refine_band
refine_bands [] fresh b k rd = (k, true)
refine_bands (band ∷ rest) fresh b k rd =
    let old = get_or k.positions b 0 in
    let new = get_or fresh b 0 in
    let k' = record k { positions = set k.positions b new } in
    let (k'', rd') = refine_band (b == 9) (old - new) (new - 1) band k' rd in
    let skipped = refine_bands rest fresh (b + 1) k' rd in
    let refined = refine_bands rest fresh (b + 1) k'' rd' in
    if ltb old new
    then (k, false)
    else if old == new
    then skipped
    else if holds_band k.coefficients band && holds_band k.signs band
    then refined
    else (k', false)

-- `affiner`
unfoldable pub refine : List Band → Bytes → Bytes → Quant → Quant → Component → Component × Bool
unfolding positions refine_bands
refine layout srl raw base prog k =
    refine_bands layout (positions base prog) 0 k
      (record { srl = srl_reader srl; raw = bit_reader raw })
